-- ===== src/Protocol/Roundtrip/Fields.antt =====
-- The fields of messages: strings, optional values, filters and channel records.
use native.Mathlib.Nat.{le_refl, mod-eq_of_lt}
use recisdb_proxy_rs.Base.{
  ℕ, ◌≤◌, ◌<◌, ◌≡◌, refl, Option, none, some, List, [], ◌∷◌, All, length, arith, true, false, ◌==◌,
}
use recisdb_proxy_rs.Protocol.Utf8.{Text, IsUtf8}
use recisdb_proxy_rs.Protocol.Messages.{
  BroadcastType, terrestrial, bs, cs, ChannelFilter, ClientChannelInfo,
}
use recisdb_proxy_rs.Protocol.Buf.{Buf, IsBuf}
use recisdb_proxy_rs.Protocol.Reader.{Reader, pure, get}
use recisdb_proxy_rs.Protocol.Encode.{
  Writer, ◌▹◌, len_u16, put_bool, flag, encode_string, encode_optional_string, encode_optional_u32,
  encode_optional_u16, encode_optional_u8, encode_broadcast_type, broadcast_type_code,
  encode_channel_filter, encode_client_channel_info, encode_channels,
}
use recisdb_proxy_rs.Protocol.Decode.{
  from_utf8, text_of, decode_string, decode_optional_string, decode_option, decode_optional_u32,
  decode_optional_u16, decode_optional_u8, broadcast_type_of, decode_broadcast_type,
  decode_channel_filter, decode_client_channel_info, decode_channels,
}
use recisdb_proxy_rs.Protocol.InRange.{
  IsU8, IsU16, IsU32, IsShort, IsShortOptional, OnSome, IsFilter, IsChannel,
}
use recisdb_proxy_rs.Protocol.Codes.{
  Codes, Codes-then, Codes-bind, Codes-last, Codes-need, Codes-weaken, Codes-skip, u8-Codes,
  u16-Codes, u32-Codes, i32-Codes, slice-Codes, bool-Codes,
}

module _ (b : Buf) (laws : IsBuf b) where
  pub text-Codes : (s : Text) → IsUtf8 s → Codes 0 (b.put_slice s) (text_of b (length s)) s
  unfolding text_of from_utf8 pure
  text-Codes s valid =
      Codes-weaken {n = length s}
        (Codes-need (Codes-then from_utf8 (slice-Codes b laws s) (λ rest. rw valid refl))
          (le_refl _))
        (omega arith)

  pub string-Codes : (s : Text) → IsShort s → Codes 2 (encode_string b s) (decode_string b) s
  unfolding encode_string decode_string len_u16
  string-Codes s (valid, short) = rw (mod-eq_of_lt short) (
      Codes-need (Codes-bind (text_of b) (u16-Codes b laws (length s) short) (text-Codes s valid))
        (omega arith))

  pub optional_string-Codes :
      (o : Option Text)
      → IsShortOptional o
      → Codes 2 (encode_optional_string b o) (decode_optional_string b) o
  unfolding encode_optional_string decode_optional_string len_u16 pure
  optional_string-Codes none h =
      Codes-need (Codes-then _ (u16-Codes b laws 0xFFFF (omega arith)) (λ rest. refl)) (omega arith)
  optional_string-Codes (some s) (valid, short) =
      let fits : length s < 65536 = omega (arith, short) in
      let marked : (length s == 65535) ≡ false = ground arith in
      rw (mod-eq_of_lt fits) (
        Codes-need
          (Codes-bind {m = 0} _ (u16-Codes b laws (length s) fits)
            (rw marked (Codes-last some (text-Codes s valid))))
          (omega arith))

  -- A presence byte of 0.
  none-Codes : {A : Type 0} (n : ℕ) (p : Reader A) → Codes 1 (b.put_u8 0) (decode_option b n p) none
  unfolding decode_option pure put_bool flag
  none-Codes n p = Codes-need (Codes-then _ (bool-Codes b laws false) (λ rest. refl)) (omega arith)

  -- A presence byte of 1, and the value.
  some-Codes :
      {A : Type 0} {n : ℕ} {w : Writer} {p : Reader A} {a : A}
      → Codes n w p a
      → Codes 1 (b.put_u8 1 ▹ w) (decode_option b n p) (some a)
  unfolding decode_option put_bool flag
  some-Codes x =
      Codes-need
        (Codes-bind _ (bool-Codes b laws true) (Codes-need (Codes-last some x) (omega arith)))
        (omega arith)

  pub optional_u16-Codes :
      (o : Option ℕ) → OnSome IsU16 o → Codes 1 (encode_optional_u16 b o) (decode_optional_u16 b) o
  unfolding encode_optional_u16 decode_optional_u16
  optional_u16-Codes none h = none-Codes 2 (get b.get_u16_le)
  optional_u16-Codes (some v) h = some-Codes (u16-Codes b laws v h)

  pub optional_u32-Codes :
      (o : Option ℕ) → OnSome IsU32 o → Codes 1 (encode_optional_u32 b o) (decode_optional_u32 b) o
  unfolding encode_optional_u32 decode_optional_u32
  optional_u32-Codes none h = none-Codes 4 (get b.get_u32_le)
  optional_u32-Codes (some v) h = some-Codes (u32-Codes b laws v h)

  pub optional_u8-Codes :
      (o : Option ℕ) → OnSome IsU8 o → Codes 1 (encode_optional_u8 b o) (decode_optional_u8 b) o
  unfolding encode_optional_u8 decode_optional_u8
  optional_u8-Codes none h = none-Codes 1 (get b.get_u8)
  optional_u8-Codes (some v) h = some-Codes (u8-Codes b laws v h)

  broadcast_type-Codes :
      (o : Option BroadcastType) → Codes 1 (encode_broadcast_type b o) (decode_broadcast_type b) o
  unfolding encode_broadcast_type decode_broadcast_type broadcast_type_code broadcast_type_of
  broadcast_type-Codes none = none-Codes 1 _
  broadcast_type-Codes (some terrestrial) =
      some-Codes (Codes-last broadcast_type_of (u8-Codes b laws 0 (omega arith)))
  broadcast_type-Codes (some bs) =
      some-Codes (Codes-last broadcast_type_of (u8-Codes b laws 1 (omega arith)))
  broadcast_type-Codes (some cs) =
      some-Codes (Codes-last broadcast_type_of (u8-Codes b laws 2 (omega arith)))

  pub filter-Codes :
      (f : ChannelFilter)
      → IsFilter f
      → Codes 0 (encode_channel_filter b f) (decode_channel_filter b) f
  unfolding encode_channel_filter decode_channel_filter
  filter-Codes f h =
      Codes-weaken
        (Codes-bind _ (optional_u16-Codes f.nid h.nid_in) (
          Codes-bind _ (optional_u16-Codes f.tsid h.tsid_in) (
            Codes-bind _ (broadcast_type-Codes f.broadcast_type)
              (Codes-last _ (Codes-need (bool-Codes b laws f.enabled_only) (omega arith))))))
        (omega arith)

  pub channel-Codes :
      (ch : ClientChannelInfo)
      → IsChannel ch
      → Codes 1 (encode_client_channel_info b ch) (decode_client_channel_info b) ch
  unfolding encode_client_channel_info decode_client_channel_info
  channel-Codes ch h =
      Codes-weaken
        (Codes-need
          (Codes-bind _ (u16-Codes b laws ch.nid h.nid_in) (
            Codes-bind _ (u16-Codes b laws ch.sid h.sid_in) (
              Codes-bind _ (u16-Codes b laws ch.tsid h.tsid_in) (
                Codes-bind _ (string-Codes ch.channel_name h.channel_name_in) (
                  Codes-bind _ (optional_string-Codes ch.network_name h.network_name_in) (
                    Codes-bind _
                      (Codes-need (u8-Codes b laws ch.service_type h.service_type_in) one)
                      (Codes-bind _
                        (optional_u8-Codes ch.remote_control_key h.remote_control_key_in)
                        (Codes-bind _ (string-Codes ch.space_name h.space_name_in) (
                          Codes-bind _
                            (string-Codes ch.channel_display_name h.channel_display_name_in)
                            (Codes-last _ (
                              Codes-need (i32-Codes b laws ch.priority h.priority_in)
                                four)))))))))))
          (omega arith))
        (omega arith)
    where
      one : 1 ≤ 1
      one = omega arith

      four : 4 ≤ 4
      four = omega arith

  pub channels-Codes :
      (chs : List ClientChannelInfo)
      → All IsChannel chs
      → Codes (length chs) (encode_channels b chs) (decode_channels b (length chs)) chs
  unfolding encode_channels decode_channels
  channels-Codes [] h = Codes-skip []
  channels-Codes (ch ∷ chs) h =
      Codes-weaken
        (Codes-bind _ (channel-Codes ch h.0)
          (Codes-last (λ rest. ch ∷ rest) (channels-Codes chs h.1)))
        (omega arith)
