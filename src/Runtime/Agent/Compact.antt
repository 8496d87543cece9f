-- ===== src/Runtime/Agent/Compact.antt =====
-- What `maybe_compact` of agent.rs does on each length of a history.
use role_n.Prelude.{
  ℕ, zero, suc, ap, ◌-◌, ◌≤◌, ◌<◌, ◌≡◌, refl, false, Option, List, [], ◌∷◌, ◌++◌, ltb, leb, eqb,
  length, take, drop, arith,
}
use role_n.Core.Types.{Text}
use role_n.Runtime.Agent.{
  HistMsg, system, estimate, unchanged, compacted, panics, compact, maybe_compact,
}

take-take : {A : Type 0} (k n : ℕ) (xs : List A) → k ≤ n → take k (take n xs) ≡ take k xs
take-take zero n xs l = refl
take-take (suc k) zero xs l = absurd (omega (arith, l))
take-take (suc k) (suc n) [] l = refl
take-take (suc k) (suc n) (x ∷ xs) l = ap (λ t. x ∷ t) (take-take k n xs (omega (arith, l)))

module _ (summarize : List HistMsg → Option Text) (note : ℕ → Option Text → Text) where
  -- A history under the limit stays as it is, as does one of at most four messages, or of eight. One
  -- over the limit of five, six or seven messages panics: the number to drop is below zero. A longer
  -- one keeps its first two and its last six messages, with one note between them.
  pub maybe_compact_lem :
      (limit : ℕ) (history : List HistMsg)
      → (estimate history < limit → maybe_compact summarize note limit history ≡ unchanged)
        × (length history ≤ 4 → maybe_compact summarize note limit history ≡ unchanged)
        × (length history ≡ 8 → maybe_compact summarize note limit history ≡ unchanged)
        × (limit ≤ estimate history
            → 4 < length history
            → length history < 8
            → maybe_compact summarize note limit history ≡ panics)
        × (limit ≤ estimate history
            → 8 < length history
            → maybe_compact summarize note limit history
              ≡ compacted
                  (take 2 history
                    ++ system (
                        note
                          (length history - 8)
                          (summarize (drop 2 (take (length history - 6) history))))
                      ∷ drop (length history - 6) history)
                  (length history - 8))
  unfolding maybe_compact compact
  maybe_compact_lem limit history = (
    λ u. ground (arith, u),
    λ u. ground (arith, u),
    λ u. ground (arith, u),
    λ u v w. ground (arith, u, v, w),
    λ u v. long u v,
  )
    where
      long :
          limit ≤ estimate history
          → 8 < length history
          → maybe_compact summarize note limit history
            ≡ compacted
                (take 2 history
                  ++ system (
                      note
                        (length history - 8)
                        (summarize (drop 2 (take (length history - 6) history))))
                    ∷ drop (length history - 6) history)
                (length history - 8)
      long u v =
          let over : ltb (estimate history) limit ≡ false = ground (arith, u) in
          let many : leb (length history) 4 ≡ false = ground (arith, v) in
          let enough : ltb (length history) 8 ≡ false = ground (arith, v) in
          let some_dropped : eqb (length history - 2 - 6) 0 ≡ false = ground (arith, v) in
          let count : length history - 2 - 6 ≡ length history - 8 = omega arith in
          let front : take 2 (take (length history - 6) history) ≡ take 2 history =
            take-take 2 (length history - 6) history (omega (arith, v)) in
          rw (over, many, enough, some_dropped, count, front) refl
