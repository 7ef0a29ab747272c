-- ===== src/Anoncreds/Intervals.antt =====
-- The times that an interval of non-revocation admits.
use instnt_aries_vcx.Base.{ℕ, ◌≡◌, ◌≤◌, ◌&&◌, Option, is_ok, unwrap_or, ltb, not, arith}
use instnt_aries_vcx.Anoncreds.Request.{
  NonRevokedInterval, compare_and_set, later, earlier, is_valid, max_u64,
}

starts_admitted :
    (a b : Option ℕ) (t : ℕ)
    → not (ltb t (unwrap_or (later a b) 0))
      ≡ (not (ltb t (unwrap_or a 0)) && not (ltb t (unwrap_or b 0)))
starts_admitted a b t = ground arith

ends_admitted :
    (a b : Option ℕ) (t : ℕ)
    → t ≤ max_u64
    → not (ltb (unwrap_or (earlier a b) max_u64) t)
      ≡ (not (ltb (unwrap_or a max_u64) t) && not (ltb (unwrap_or b max_u64) t))
ends_admitted a b t small = ground (arith, small)

-- `compare_and_set` makes of two intervals the one that admits exactly the times, within 64 bits,
-- that both admit; a missing start or end is no bound.
pub compare_and_set-is_valid :
    (a b : NonRevokedInterval) (t : ℕ)
    → t ≤ max_u64
    → is_ok (is_valid (compare_and_set a b) t) ≡ (is_ok (is_valid a t) && is_ok (is_valid b t))
unfolding compare_and_set is_valid
compare_and_set-is_valid a b t small =
    ground (arith, starts_admitted a.from b.from t, ends_admitted a.to b.to t small)
