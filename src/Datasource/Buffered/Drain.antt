-- ===== src/Datasource/Buffered/Drain.antt =====
-- What a tick of `flushEvents` sends.
use nuts.Base.{
  ◌≡◌, ap, sym, ◌∙◌, zero, suc, ℕ, ◌+◌, ◌≤◌, none, some, List, [], ◌∷◌, ◌++◌, map, length, drop,
  get_or, arith, append-nil, append-step,
}
use nuts.Datasource.Buffered.{BufferedDataSource, flush, pop}
use nuts.Datasource.Buffered.Window.{IsValid, contents, pop-contents}

module _ {E : Type 0} where
  -- With fuel for the elements of a valid buffer that holds no nil, a tick sends them all, in order,
  -- counts each as processed, and leaves the buffer empty.
  pub flush_lem :
      (fuel : ℕ) (es : List E) (b : BufferedDataSource E)
      → IsValid b.buffer
      → contents b.buffer ≡ map some es
      → length es ≤ fuel
      → let b' = flush fuel b in
        (b'.out ≡ b.out ++ es)
        × (contents b'.buffer ≡ [])
        × (b'.stats.processed_events ≡ b.stats.processed_events + length es)
  unfolding flush
  flush_lem zero [] b v c h = (sym (append-nil b.out), c, omega arith)
  flush_lem zero (e ∷ es) b v c h = absurd (omega (arith, h))
  flush_lem (suc fuel) [] b v c h =
      let p = pop-contents b.buffer v in
      let empty : (pop b.buffer).0 ≡ none = p.2 ∙ ap (λ xs. get_or xs 0 none) c in
      rw (empty, flush) (sym (append-nil b.out), p.3 ∙ ap (drop 1) c, omega arith)
  flush_lem (suc fuel) (e ∷ es) b v c h =
      let p = pop-contents b.buffer v in
      let first : (pop b.buffer).0 ≡ some e = p.2 ∙ ap (λ xs. get_or xs 0 none) c in
      let sent = record b {
        buffer = (pop b.buffer).1;
        stats = record b.stats { processed_events = suc b.stats.processed_events };
        out = b.out ++ (e ∷ []);
      } in
      let (out, empty, processed) =
        flush_lem fuel es sent p.0 (p.3 ∙ ap (drop 1) c) (omega (arith, h)) in
      rw (first, flush) (out ∙ append-step b.out es e, empty, processed ∙ omega arith)
