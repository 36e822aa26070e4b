-- ===== src/Protocol/Roundtrip/Client.antt =====
-- Client messages: encoding, then decoding.
use recisdb_proxy_rs.Base.{
  ℕ, ◌≡◌, ◌≢◌, refl, Option, none, some, List, [], ◌∷◌, length, true, false, arith, ok,
}
use recisdb_proxy_rs.Protocol.Utf8.{Text}
use recisdb_proxy_rs.Protocol.Messages.{ChannelFilter, ClientMessage, client_message_type}
use recisdb_proxy_rs.Protocol.Messages
use recisdb_proxy_rs.Protocol.Buf.{Buf, IsBuf}
use recisdb_proxy_rs.Protocol.Reader.{◌>>=◌, need, pure, get}
use recisdb_proxy_rs.Protocol.Encode.{
  ◌▹◌, len_u16, put_bool, flag, encode_sid, encode_filter, client_payload,
}
use recisdb_proxy_rs.Protocol.Decode.{
  get_bool, text_of, non_empty, decode_sid, decode_filter, client_reader,
}
use recisdb_proxy_rs.Protocol.InRange.{IsU16, IsShort, OnSome, IsOptionalFilter, InRange}
use recisdb_proxy_rs.Protocol.Codes.{
  Codes, Codes-then, Codes-bind, Codes-last, Codes-need, Codes-guard, Codes-weaken, Codes-skip,
  u8-Codes, u16-Codes, u32-Codes, i32-Codes, bool-Codes,
}
use recisdb_proxy_rs.Protocol.Roundtrip.Fields.{filter-Codes, text-Codes}
use native.Mathlib.Nat.{mod-eq_of_lt}

module _ (b : Buf) (laws : IsBuf b) where
  -- The optional fields whose presence byte is read by the message's own decoder.
  sid-Codes :
      (nid tsid : ℕ) (o : Option ℕ)
      → OnSome IsU16 o
      → Codes 1
          (encode_sid b o)
          (get_bool b >>= λ has.
            (decode_sid b has >>= λ sid. pure (Messages.select_logical_channel nid tsid sid)))
          (Messages.select_logical_channel nid tsid o)
  unfolding encode_sid decode_sid put_bool flag pure ◌>>=◌
  sid-Codes nid tsid none h = Codes-then _ (bool-Codes b laws false) (λ rest. refl)
  sid-Codes nid tsid (some v) h =
      Codes-weaken
        (Codes-bind _ (bool-Codes b laws true)
          (Codes-last _ (Codes-need (Codes-last some (u16-Codes b laws v h)) (omega arith))))
        (omega arith)

  filter_list-Codes :
      (o : Option ChannelFilter)
      → IsOptionalFilter o
      → Codes 1
          (encode_filter b o)
          (get_bool b >>= λ has. (decode_filter b has >>= λ f. pure (Messages.get_channel_list f)))
          (Messages.get_channel_list o)
  unfolding encode_filter decode_filter put_bool flag pure ◌>>=◌
  filter_list-Codes none h = Codes-then _ (bool-Codes b laws false) (λ rest. refl)
  filter_list-Codes (some f) h =
      Codes-weaken
        (Codes-bind _ (bool-Codes b laws true)
          (Codes-last _ (Codes-last some (filter-Codes b laws f h))))
        (omega arith)

  -- A string is not empty, so `open_tuner` takes it.
  path-Codes :
      (s : Text) → s ≢ [] → (rest : List ℕ) → non_empty s rest ≡ ok (Messages.open_tuner s, rest)
  unfolding non_empty pure
  path-Codes [] h rest = absurd (h refl)
  path-Codes (c ∷ s) h rest = refl

  tuner_path-Codes :
      (path : Text)
      → IsShort path
      → path ≢ []
      → Codes 0
          (b.put_u16_le (len_u16 path) ▹ b.put_slice path)
          (need 2 (get b.get_u16_le >>= text_of b >>= non_empty))
          (Messages.open_tuner path)
  unfolding len_u16
  tuner_path-Codes path h full = rw (mod-eq_of_lt h.1) (
      Codes-guard
        (Codes-then non_empty
          (Codes-bind (text_of b) (u16-Codes b laws (length path) h.1) (text-Codes b laws path h.0))
          (path-Codes path full))
        (omega arith))

  -- Every message is read back from the bytes that were written for it.
  pub client-Codes :
      (msg : ClientMessage)
      → InRange msg
      → Codes 0 (client_payload b msg) (client_reader b (client_message_type msg)) msg
  unfolding client_payload client_reader client_message_type
  client-Codes (Messages.hello version) h =
      Codes-guard (Codes-last _ (u16-Codes b laws version h)) (omega arith)
  client-Codes Messages.ping h = Codes-skip Messages.ping
  client-Codes (Messages.open_tuner path) h = tuner_path-Codes path h.0 h.1
  client-Codes (Messages.open_tuner_with_group name) h = absurd h
  client-Codes Messages.close_tuner h = Codes-skip Messages.close_tuner
  client-Codes (Messages.set_channel channel priority exclusive) h =
      Codes-guard
        (Codes-bind _ (u8-Codes b laws channel h.0) (
          Codes-bind _ (i32-Codes b laws priority h.1)
            (Codes-last _ (bool-Codes b laws exclusive))))
        (omega arith)
  client-Codes (Messages.set_channel_space space channel priority exclusive) h =
      Codes-guard
        (Codes-bind _ (u32-Codes b laws space h.0) (
          Codes-bind _ (u32-Codes b laws channel h.1) (
            Codes-bind _ (i32-Codes b laws priority h.2)
              (Codes-last _ (bool-Codes b laws exclusive)))))
        (omega arith)
  client-Codes (Messages.set_channel_space_in_group name space channel priority exclusive) h =
      absurd h
  client-Codes Messages.get_signal_level h = Codes-skip Messages.get_signal_level
  client-Codes (Messages.enum_tuning_space space) h =
      Codes-guard (Codes-last _ (u32-Codes b laws space h)) (omega arith)
  client-Codes (Messages.enum_channel_name space channel) h =
      Codes-guard
        (Codes-bind _ (u32-Codes b laws space h.0) (Codes-last _ (u32-Codes b laws channel h.1)))
        (omega arith)
  client-Codes Messages.start_stream h = Codes-skip Messages.start_stream
  client-Codes Messages.stop_stream h = Codes-skip Messages.stop_stream
  client-Codes Messages.purge_stream h = Codes-skip Messages.purge_stream
  client-Codes (Messages.set_lnb_power enable) h =
      Codes-guard (Codes-last _ (bool-Codes b laws enable)) (omega arith)
  client-Codes (Messages.select_logical_channel nid tsid sid) h =
      Codes-guard
        (Codes-bind _ (u16-Codes b laws nid h.0)
          (Codes-bind _ (u16-Codes b laws tsid h.1) (sid-Codes nid tsid sid h.2)))
        (omega arith)
  client-Codes (Messages.get_channel_list filter) h =
      Codes-guard (filter_list-Codes filter h) (omega arith)
  client-Codes (Messages.set_service_filter single_service) h =
      Codes-guard (Codes-last _ (bool-Codes b laws single_service)) (omega arith)
