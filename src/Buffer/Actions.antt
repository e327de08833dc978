-- ===== src/Buffer/Actions.antt =====
-- Actions on a byte buffer that may fail.
use moqt_minimal.Prelude.{ℕ, Bool, true, false, List, [], ◌∷◌, ◌++◌}
use moqt_minimal.Prelude.{◌+◌, ◌^◌, leb, ltb, if◌then◌else◌, length, take, drop}

-- One error for each `ensure!`, `bail!` and `?` message. `out_of_fuel` is no error of the program:
-- a loop of the model stopped early. `stream_finished` is the stream's ReadExactError::FinishedEarly.
pub data Error : Type 0 where
  empty_buffer need_bytes invalid_code_point : Error
  message_length_truncated message_payload_truncated unexpected_message_type : Error
  not_ascending odd_type_with_varint even_type_with_bytes : Error
  type_overflow value_too_long value_truncated : Error
  reason_too_long reason_truncated : Error
  too_many_fields empty_field field_truncated track_name_truncated : Error
  unsupported_filter filter_truncated unknown_filter forward_truncated token_truncated : Error
  subscriber_priority_truncated group_order_truncated unknown_parameter : Error
  track_properties_truncated object_properties_truncated : Error
  invalid_header_type publisher_priority_truncated : Error
  unknown_request_type unexpected_response request_rejected : Error
  connection_closed stream_finished out_of_fuel : Error

pub data Result {ℓ} (A : Type ℓ) : Type ℓ where
  ok : A → Result A
  err : Error → Result A

abbrev pub Action {ℓ} : Type ℓ → Type ℓ
Action A = List ℕ → Result (A × List ℕ)

module _ {ℓ κ} {A : Type ℓ} {B : Type κ} where
  abbrev pub continue : Result (A × List ℕ) → (A → Action B) → Result (B × List ℕ)
  continue (ok (a, buf)) f = f a buf
  continue (err e) f = err e

  infixl 5 ◌>>=◌
  unfoldable pub ◌>>=◌ : Action A → (A → Action B) → Action B
  ◌>>=◌ m f buf = continue (m buf) f

module _ {ℓ} {B : Type ℓ} where
  infixl 5 ◌>>◌
  abbrev pub ◌>>◌ : Action (Unit {0}) → Action B → Action B
  m >> k = m >>= λ _. k

module _ {ℓ} {A : Type ℓ} where
  unfoldable pub pure : A → Action A
  pure a buf = ok (a, buf)

  unfoldable pub fail : Error → Action A
  fail e buf = err e

  -- An action on a slice or vector of its own, which is dropped afterwards.
  unfoldable pub on_slice : List ℕ → Action A → Action A
  on_slice bytes m buf = elim (m bytes) [ ok (a, rest) ↦ ok (a, buf) | err e ↦ err e ]

-- A fresh vector is filled, and what it holds is returned.
unfoldable pub collect : Action (Unit {0}) → Action (List ℕ)
collect m buf = elim (m []) [ ok (a, bytes) ↦ ok (bytes, buf) | err e ↦ err e ]

-- `ensure!`.
unfoldable pub ensure : Bool → Error → Action (Unit {0})
ensure true e buf = ok (tt, buf)
ensure false e buf = err e

-- `buf.push`, `buf.extend_from_slice`.
unfoldable pub push : List ℕ → Action (Unit {0})
push bytes buf = ok (tt, buf ++ bytes)

-- `ensure!(buf.len() >= n)`, `buf[..n].to_vec()`, `*buf = &buf[n..]`.
unfoldable pub split : ℕ → Error → Action (List ℕ)
split n e buf = if leb n (length buf) then ok (take n buf, drop n buf) else err e

-- `ensure!(!buf.is_empty())`, `buf[0]`, `*buf = &buf[1..]`.
unfoldable pub next_byte : Error → Action ℕ
next_byte e [] = err e
next_byte e (b ∷ buf) = ok (b, buf)

-- `checked_add` on u64.
unfoldable pub checked_add : ℕ → ℕ → Action ℕ
checked_add a b = if ltb (a + b) (2 ^ 64) then pure (a + b) else fail type_overflow
