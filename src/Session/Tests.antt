-- ===== src/Session/Tests.antt =====
-- A session that gets a greeting and a ping in three pieces.
use recisdb_proxy_rs.Base.{
  ℕ, zero, suc, false, ◌≤◌, ◌≡◌, refl, List, [], ◌∷◌, All, length, arith, ok,
}
use recisdb_proxy_rs.Protocol.MessageType.{to_u16}
use recisdb_proxy_rs.Protocol.Messages
use recisdb_proxy_rs.Protocol.Messages.{ClientMessage, client_message_type}
use recisdb_proxy_rs.Protocol.Plain.{plain, plain-IsBuf}
use recisdb_proxy_rs.Protocol.Encode.{◌▹◌, skip, client_payload}
use recisdb_proxy_rs.Protocol.Frame.{encode_frame, encode_client_message, max_frame_size}
use recisdb_proxy_rs.Session.Receive.{
  fails, Handled, goes_on, breaks, Handler, handler_failed, answered, run,
}
use recisdb_proxy_rs.Session.Delivery.{encode_all, IsSendable, run-encode_all}

abbrev greeting : List ClientMessage
greeting = Messages.hello 1 ∷ Messages.ping ∷ []

abbrev greeting_bytes : List ℕ
greeting_bytes =
    b'B' ∷ b'N' ∷ b'D' ∷ b'P' ∷ 2 ∷ 0 ∷ 0 ∷ 0 ∷ 1 ∷ 0 ∷ 1 ∷ 0 ∷ b'B' ∷ b'N' ∷ b'D' ∷ b'P' ∷ 0 ∷ 0
    ∷ 0 ∷ 0 ∷ 1 ∷ 0xFF ∷ []

greeting_encoded : encode_all plain greeting ≡ ok greeting_bytes
unfolding encode_client_message encode_frame client_payload client_message_type to_u16 ◌▹◌ skip
greeting_encoded = refl

greeting_small : All (λ msg. length (client_payload plain msg []) ≤ max_frame_size) greeting
unfolding client_payload ◌▹◌ skip
greeting_small = (omega arith, (omega arith, tt))

greeting-IsSendable : All (IsSendable plain) greeting
greeting-IsSendable = ((omega arith, greeting_small.0), ((tt, greeting_small.1.0), tt))

abbrev pieces : List (List ℕ)
pieces =
    (b'B' ∷ b'N' ∷ [])
    ∷ (b'D' ∷ b'P' ∷ 2 ∷ 0 ∷ 0 ∷ 0 ∷ 1 ∷ 0 ∷ 1 ∷ 0 ∷ b'B' ∷ b'N' ∷ b'D' ∷ b'P' ∷ 0 ∷ [])
    ∷ (0 ∷ 0 ∷ 0 ∷ 1 ∷ 0xFF ∷ [])
    ∷ []

-- A session that counts its messages, and whose second answer cannot be sent.
abbrev second_breaks : ℕ → Handled
second_breaks zero = goes_on
second_breaks (suc n) = breaks

abbrev counting : Handler ℕ
counting = record {
  handle_message = λ n msg. (suc n, second_breaks n);
  is_streaming = λ n. false;
  shut_down = λ buf chunks. false;
}

run-encode_all_example : run plain fails counting 4 3 0 [] pieces ≡ (greeting, handler_failed)
unfolding answered
run-encode_all_example =
    run-encode_all plain plain-IsBuf fails counting (λ buf chunks. refl) 0 greeting greeting_bytes
      pieces 4 3 greeting-IsSendable (refl, (refl, tt)) greeting_encoded (omega arith) refl
      (omega arith) (omega arith)
