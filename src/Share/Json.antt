-- ===== src/Share/Json.antt =====
-- `ReadJsonRequest` and `WriteJsonResponse` of share/http.go. The decoder and the encoder of encoding/json are
-- parameters.
use tasked.Base.{
  leb, ◌==◌, if◌then◌else◌, length, Runes, ℕ, ◌+◌, ◌<◌, ◌≡◌, ◌↔◌, ◌⊎◌, Bool, true, false, not, ◌&&◌,
  Option, none, some, List, [], ◌∷◌, arith,
}
use tasked.Share.Reading.{Call, Got, bytes, read_all, total, read_all-total}

-- How a decoding ends.
pub data DecodeError : Type 0 where
  no_error eof decode_fails : DecodeError

-- What the decoder does: the calls with which it reads, how it ends, by what it has read, and how many bytes
-- are left in its buffer then.
pub record Decoder : Type 0 where
  pub calls : List Call
  pub decode : List Got → DecodeError
  pub buffered : List Got → ℕ

pub data ReadJson : Type 0 where
  accepted body_too_large invalid_json : ReadJson

abbrev pub is_eof : DecodeError → Bool
is_eof eof = true
is_eof _ = false

abbrev pub is_failure : DecodeError → Bool
is_failure decode_fails = true
is_failure _ = false

-- What the decoder gets: the bytes as they come, or no more than `max`, where this is not 0.
abbrev pub direct : List Call → List Got
direct [] = []
direct (c ∷ cs) = bytes (if leb c.has c.room then c.has else c.room) ∷ direct cs

-- Behind the decoding; `spent` is whether there is a `MaxReader` with no count left.
unfoldable pub of_decoded : (spent : Bool) → DecodeError → (buffered : ℕ) → ReadJson
of_decoded spent err buffered =
    if not (is_eof err) && spent
    then body_too_large
    else if is_failure err
    then invalid_json
    else if buffered == 0
    then accepted
    else invalid_json

-- `max` is 0 where `maxBody` is not positive.
unfoldable pub read_json_request : (max : ℕ) → Decoder → ReadJson
read_json_request max dec =
    if max == 0
    then of_decoded false (dec.decode (direct dec.calls)) (dec.buffered (direct dec.calls))
    else let (left, gs) = read_all max dec.calls in
      of_decoded (left == 0) (dec.decode gs) (dec.buffered gs)

of_decoded_iff :
    (max left read_total : ℕ) (err : DecodeError) (buffered : ℕ)
    → left + read_total ≡ max
    → (of_decoded (left == 0) err buffered ≡ accepted)
      ↔ ((is_failure err ≡ false) × (buffered ≡ 0) × ((read_total < max) ⊎ (is_eof err ≡ true)))
unfolding of_decoded
of_decoded_iff max left n no_error b h = ground (arith, h)
of_decoded_iff max left n eof b h = ground (arith, h)
of_decoded_iff max left n decode_fails b h = ground (arith, h)

-- With a limit, a body is accepted just if it was decoded, or was empty, nothing was left in the buffer of
-- the decoder, and fewer bytes than the limit were read: a value that takes up all of the limit is refused.
pub read_json_request_iff :
    (max : ℕ) (dec : Decoder)
    → 0 < max
    → (read_json_request max dec ≡ accepted) ↔ (
        (is_failure (dec.decode (read_all max dec.calls).1) ≡ false)
        × (dec.buffered (read_all max dec.calls).1 ≡ 0)
        × ((total (read_all max dec.calls).1 < max)
            ⊎ (is_eof (dec.decode (read_all max dec.calls).1) ≡ true)))
unfolding read_json_request
read_json_request_iff max dec h =
    let gs = (read_all max dec.calls).1 in
    let positive : (max == 0) ≡ false = ground (arith, h) in
    rw positive (
      of_decoded_iff max (read_all max dec.calls).0 (total gs) (dec.decode gs) (dec.buffered gs)
        (read_all-total max dec.calls))

-- What `WriteJsonResponse` writes: the headers, where the value was encoded, and the body.
pub record Written : Type 0 where
  pub content_length : ℕ
  pub body : Option Runes

unfoldable pub write_json_response : (head : Bool) → (marshalled : Option Runes) → Option Written
write_json_response head none = none
write_json_response head (some js) =
    some record { content_length = length js; body = if head then none else some js }
