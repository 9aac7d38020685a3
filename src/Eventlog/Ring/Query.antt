-- ===== src/Eventlog/Ring/Query.antt =====
-- `Query` with a limit: the first entries that pass the filter.
use nuts.Base.{
  zero, ltb, ltb→lt, refl, ap, sym, ◌∙◌, ◌≡◌, ◌<◌, ℕ, suc, ◌-◌, List, [], ◌∷◌, select, take, arith,
  keep_last, Bool-cases, inl, inr, ltb,
}
use nuts.Base.Int.{pos}
use nuts.Eventlog.{EventLogEntry, LogFilter}
use nuts.Eventlog.Ring.{new_ring_log, query, scan, passes}
use nuts.Eventlog.Ring.History.{append_all, retained}

module _ {P : Type 0} (f : LogFilter) (m : ℕ) (limited : f.limit ≡ pos m) where
  take-nil : (k : ℕ) → take {A = EventLogEntry P} k [] ≡ []
  take-nil zero = refl
  take-nil (suc k) = refl

  take-zero : (es : List (EventLogEntry P)) → take 0 es ≡ []
  take-zero es = refl

  scan-take :
      (found : ℕ) (es : List (EventLogEntry P))
      → found < m
      → scan f found es ≡ take (m - found) (select (passes f) es)
  unfolding scan
  scan-take found [] h = sym (take-nil (m - found))
  scan-take found (e ∷ es) h = elim (Bool-cases (passes f e)) [
    | inr skipped ↦ rw (skipped, scan) (scan-take found es h)
    | inl passed ↦
        let one : m - found ≡ suc (m - suc found) = omega (arith, h) in
        elim (Bool-cases (ltb (suc found) m)) [
          | inl more ↦ ground (
            arith,
            passed,
            limited,
            more,
            h,
            one,
            scan-take (suc found) es (ltb→lt (suc found) m more),
          )
          | inr last ↦
              (let end : m - suc found ≡ 0 = ground (arith, last) in
                ground
                  (arith, passed, limited, last, h, one, end, take-zero (select (passes f) es)))
        ]
  ]

  -- `Query` with a positive limit returns, of a log of a positive size, the first of the retained
  -- entries that pass the filter, up to the limit; its offset plays no part.
  pub query_lem :
      (zero_entry : EventLogEntry P) (n : ℕ) (es : List (EventLogEntry P))
      → 0 < n
      → 0 < m
      → query zero_entry f (append_all zero_entry es (new_ring_log zero_entry (pos n)))
        ≡ take m (select (passes f) (keep_last n es))
  unfolding query
  query_lem zero_entry n es h some_limit =
      ap (scan f 0) (retained zero_entry n es h)
      ∙ scan-take 0 (keep_last n es) some_limit
      ∙ ap (λ k. take k (select (passes f) (keep_last n es))) {x = m - 0} {y = m} (omega arith)
