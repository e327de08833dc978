-- ===== src/Wire/Parameter/Skipped.antt =====
-- `decode_parameters` behind a parameter that it skips.
use moqt_minimal.Prelude.{ℕ, suc, ◌-◌, ◌≡◌, refl, List, ◌++◌, arith, IsU64}
use moqt_minimal.Buffer.{
  Reads-checked_add_zero, err, ◌>>=◌, Reads, Reads-last, bind-after_read, fail, unknown_parameter,
}
use moqt_minimal.Wire.Varint.{varint_bytes}
use moqt_minimal.Wire.Varint.RoundTrip.{Reads-varint}
use moqt_minimal.Wire.Parameter.{
  MessageParameter, subscription_filter, largest_object, param_type_id, forward,
  param_delivery_timeout,
}
use moqt_minimal.Wire.Parameter.{decode_value, decode_from, decode_parameters, skip_varint}
use moqt_minimal.Wire.Parameter.RoundTrip.{type_id_bound}
use moqt_minimal.Prelude.{none, ◌∙◌}

timeout_value :
    (v : ℕ) → IsU64 v → Reads (decode_value param_delivery_timeout) none (varint_bytes v)
unfolding decode_value skip_varint
timeout_value v h = Reads-last _ _ (Reads-varint v h)

-- One round of the loop on a DELIVERY_TIMEOUT: the previous type stays at 0.
skip_timeout :
    (n v : ℕ) (rest : List ℕ)
    → IsU64 v
    → decode_from (suc n) 0 (varint_bytes param_delivery_timeout ++ (varint_bytes v ++ rest))
      ≡ decode_from n 0 rest
unfolding decode_from
skip_timeout n v rest h =
    bind-after_read _ _ (varint_bytes v ++ rest) (Reads-varint 2 (omega arith))
    ∙ bind-after_read _ _ (varint_bytes v ++ rest) (Reads-checked_add_zero 2 (omega arith))
    ∙ bind-after_read _ _ rest (timeout_value v h)

-- The type of a parameter less that of DELIVERY_TIMEOUT is the type of none.
displaced_value :
    (p : MessageParameter)
    → decode_value (param_type_id p - param_delivery_timeout) ≡ fail unknown_parameter
unfolding decode_value param_type_id
displaced_value (subscription_filter f) = refl
displaced_value (largest_object group object) = refl
displaced_value (forward v) = refl

displaced :
    (p : MessageParameter) (n : ℕ) (rest : List ℕ)
    → decode_from (suc n) 0 (varint_bytes (param_type_id p - param_delivery_timeout) ++ rest)
      ≡ err unknown_parameter
unfolding decode_from
displaced p n rest =
    let t : ℕ = param_type_id p - param_delivery_timeout in
    let small : IsU64 t = omega (arith, type_id_bound p) in
    bind-after_read _ _ rest (Reads-varint t small)
    ∙ bind-after_read _ _ rest (Reads-checked_add_zero t small)
    ∙ rw (displaced_value p) (unfold ◌>>=◌ fail in refl)

-- After a DELIVERY_TIMEOUT, which `decode_parameters` skips, no parameter that this implementation
-- keeps is understood: with its delta counted from the DELIVERY_TIMEOUT, as `encode_parameters`
-- counts deltas, decoding fails with `unknown_parameter`, whatever the values are.
pub parameter_after_timeout :
    (timeout : ℕ) (p : MessageParameter) (rest : List ℕ)
    → IsU64 timeout
    → decode_parameters (
        varint_bytes 2
        ++ (varint_bytes param_delivery_timeout
            ++ (varint_bytes timeout
                ++ (varint_bytes (param_type_id p - param_delivery_timeout) ++ rest))))
      ≡ err unknown_parameter
unfolding decode_parameters
parameter_after_timeout timeout p rest h =
    bind-after_read _ _ _ (Reads-varint 2 (omega arith))
    ∙ skip_timeout 1 timeout _ h
    ∙ displaced p 0 rest
