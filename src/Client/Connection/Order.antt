-- ===== src/Client/Connection/Order.antt =====
-- Responses carry nothing that names their request: they are taken in the order in which they come.
use recisdb_proxy_rs.Base.{
  ◌≡◌, refl, ap, ◌∙◌, true, Option, none, some, List, [], ◌∷◌, ◌++◌, map, append_assoc, length,
  take, ◌&&◌, if◌then◌else◌,
}
use recisdb_proxy_rs.Protocol.Messages.{ClientMessage, ServerMessage}
use recisdb_proxy_rs.Client.Connection.{Connection, Exchange, receive, send_request}

-- An exchange in which the server's answer comes in time.
abbrev pub in_time : ServerMessage → Exchange
in_time answer = record { accepted = true; arrivals = answer ∷ [] }

-- What the caller gets for requests that are all answered in time.
abbrev pub exchange_all :
    List (ClientMessage × ServerMessage) → Connection → List (Option ServerMessage)
exchange_all [] c = []
exchange_all ((msg, answer) ∷ rest) c =
    let r = send_request msg (in_time answer) c in r.0 ∷ exchange_all rest r.1

abbrev pub answers : List (ClientMessage × ServerMessage) → List ServerMessage
answers [] = []
answers ((msg, answer) ∷ rest) = answer ∷ answers rest

taken :
    (queue : List ServerMessage) (msg : ClientMessage) (answer : ServerMessage) (c : Connection)
    → c.opened ≡ true
    → c.responses ≡ queue
    → send_request msg (in_time answer) c
      ≡ receive (queue ++ answer ∷ []) (record c { sent = c.sent ++ msg ∷ [] })
unfolding send_request
taken queue msg answer c o e =
    let c' = record c { sent = c.sent ++ msg ∷ [] } in
    ap (λ t. if t && true then receive (c.responses ++ answer ∷ []) c' else (none, c)) o
    ∙ ap (λ q. receive (q ++ answer ∷ []) c') e

exchange_all-queue :
    (pairs : List (ClientMessage × ServerMessage)) (queue : List ServerMessage) (c : Connection)
    → c.opened ≡ true
    → c.responses ≡ queue
    → exchange_all pairs c ≡ map some (take (length pairs) (queue ++ answers pairs))
unfolding receive
exchange_all-queue [] queue c o e = refl
exchange_all-queue ((msg, answer) ∷ pairs) [] c o e =
    let t = taken [] msg answer c o e in
    rw t (
      ap (λ l. some answer ∷ l)
        (exchange_all-queue pairs [] (record c { sent = c.sent ++ msg ∷ []; responses = [] }) o
          refl))
exchange_all-queue ((msg, answer) ∷ pairs) (r ∷ rs) c o e =
    let t = taken (r ∷ rs) msg answer c o e in
    rw t (
      ap (λ l. some r ∷ l)
        (exchange_all-queue pairs (rs ++ answer ∷ [])
            (record c { sent = c.sent ++ msg ∷ []; responses = rs ++ answer ∷ [] }) o refl
          ∙ ap (λ l. map some (take (length pairs) l))
              (append_assoc rs (answer ∷ []) (answers pairs))))

-- A connection is open, and each of its requests is answered in time. The caller gets the responses
-- that were waiting before, and then the answers, in order: so after a request that timed out and
-- whose answer came late, every later request is given the answer to the one before it.
pub exchange_all-in_order :
    (pairs : List (ClientMessage × ServerMessage)) (c : Connection)
    → c.opened ≡ true
    → exchange_all pairs c ≡ map some (take (length pairs) (c.responses ++ answers pairs))
exchange_all-in_order pairs c o = exchange_all-queue pairs c.responses c o refl
