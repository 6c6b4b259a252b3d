-- ===== src/Client/Transfer/Kept.antt =====
-- A request that waits is answered once: a call of a handler takes the correlation away.
use project_trans.Base.{
  ℕ, ◌+◌, ◌≤◌, ◌≡◌, refl, sym, ap, ◌∙◌, arith, ◌==◌, if◌then◌else◌, Bool-cases, inl, inr,
  Option-cases, ==→eq, ==→ne, ne→==,
}
use project_trans.Base.{Bool, true, false, Option, none, some, some-injective, List, [], ◌∷◌}
use project_trans.Client.Transfer.{
  TransCorrelation, TransService, correlate, send_request, time_out, remove_response_handler,
  Handled, ResponseEnvelope, on_received_frame_ready,
}
use project_trans.Client.Transfer.Events.{
  Event, send, time_is_over, remove, received, log, is_of, handled, correlation_of, sent_by,
  waits_at, waits, IsKeyed, called, handle, run, sent,
}

module _ (try_parse_response : List ℕ → Option ResponseEnvelope) where
  handled-log :
      (p : TransCorrelation → Bool) (id : ℕ) (h : Option Handled) (hs : List Handled)
      → handled p id (log h hs) ≡ called p id h + handled p id hs
  handled-log p id none hs = omega arith
  handled-log p id (some h) hs = refl

  erase-IsKeyed :
      (s : TransService) (k : ℕ)
      → IsKeyed s
      → IsKeyed (record s { trans_correlations = correlate k none s.trans_correlations })
  erase-IsKeyed s k keyed id c e = elim (Bool-cases (id == k)) [
    | inl b ↦ cc (rw b at e)
    | inr b ↦ keyed id c (rw b at e)
  ]

  erased_waits :
      (p : TransCorrelation → Bool) (id : ℕ) (b : Bool) (o : Option TransCorrelation)
      → waits_at p id (if b then none else o) ≤ waits_at p id o
  erased_waits p id true o = omega arith
  erased_waits p id false o = omega arith

  added_waits :
      (p : TransCorrelation → Bool) (id : ℕ) (b : Bool) (c : TransCorrelation)
      (o : Option TransCorrelation)
      → waits_at p id (if b then some c else o) ≤ is_of p id c + waits_at p id o
  added_waits p id true c o = omega arith
  added_waits p id false c o = omega arith

  erase-waits :
      (s : TransService) (k : ℕ) (p : TransCorrelation → Bool) (id : ℕ)
      → waits p id (record s { trans_correlations = correlate k none s.trans_correlations })
        ≤ waits p id s
  erase-waits s k p id = erased_waits p id (id == k) (s.trans_correlations id)

  handle-IsKeyed :
      (e : Event) (s : TransService) → IsKeyed s → IsKeyed (handle try_parse_response e s).1
  unfolding send_request time_out remove_response_handler on_received_frame_ready
  handle-IsKeyed (send kind endpoint) s keyed = λ id c e.
      elim (Bool-cases (id == s.request_id_counter)) [
        | inl b ↦
            let same = some-injective _ _ (rw b at e) in
            sym (ap (λ (c : TransCorrelation). c.context.request_id) same)
            ∙ sym (==→eq id s.request_id_counter b)
        | inr b ↦ keyed id c (rw b at e)
      ]
  handle-IsKeyed (time_is_over k) s keyed = elim (Option-cases (s.trans_correlations k)) [
    | inl e ↦ rw (e, time_out) keyed
    | inr (c, e) ↦ rw (e, time_out) (erase-IsKeyed s k keyed)
  ]
  handle-IsKeyed (remove k) s keyed = erase-IsKeyed s k keyed
  handle-IsKeyed (received bytes) s keyed = elim (Option-cases (try_parse_response bytes)) [
    | inl e ↦ rw (e, on_received_frame_ready) keyed
    | inr (r, e) ↦ elim (Option-cases (s.trans_correlations r.request_id)) [
      | inl f ↦ rw (e, f, on_received_frame_ready) keyed
      | inr (c, f) ↦ rw (e, f, on_received_frame_ready) (erase-IsKeyed s r.request_id keyed)
    ]
  ]

  -- A call of a handler takes the correlation away.
  taken :
      (s : TransService) (k : ℕ) (c : TransCorrelation) (p : TransCorrelation → Bool) (id : ℕ)
      → IsKeyed s
      → s.trans_correlations k ≡ some c
      → is_of p id c
          + waits p id (record s { trans_correlations = correlate k none s.trans_correlations })
        ≤ waits p id s
  taken s k c p id keyed e = elim (Bool-cases (id == k)) [
    | inl b ↦
        let same : s.trans_correlations id ≡ some c = ap s.trans_correlations (==→eq id k b) ∙ e in
        rw (b, same) (omega arith)
    | inr b ↦ omega (arith, other p id k c (keyed k c e) b, erase-waits s k p id)
  ]
    where
      other :
          (p : TransCorrelation → Bool) (id k : ℕ) (c : TransCorrelation)
          → c.context.request_id ≡ k
          → (id == k) ≡ false
          → is_of p id c ≡ 0
      other p id k c e b = rw (e, ne→== k id (λ q. ==→ne id k b (sym q))) refl

  handle_count :
      (p : TransCorrelation → Bool) (id : ℕ) (e : Event) (s : TransService)
      → IsKeyed s
      → called p id (handle try_parse_response e s).0 + waits p id (handle try_parse_response e s).1
        ≤ sent_by p id e s + waits p id s
  unfolding send_request time_out remove_response_handler on_received_frame_ready
  handle_count p id (send kind endpoint) s keyed = omega (
    arith,
    added_waits p id (id == s.request_id_counter) (correlation_of kind endpoint s)
        (s.trans_correlations id),
  )
  handle_count p id (time_is_over k) s keyed = elim (Option-cases (s.trans_correlations k)) [
    | inl e ↦ rw (e, time_out) (omega arith)
    | inr (c, e) ↦ rw (e, time_out) (omega (arith, erase-waits s k p id))
  ]
  handle_count p id (remove k) s keyed = omega (arith, erase-waits s k p id)
  handle_count p id (received bytes) s keyed = elim (Option-cases (try_parse_response bytes)) [
    | inl e ↦ rw (e, on_received_frame_ready) (omega arith)
    | inr (r, e) ↦ elim (Option-cases (s.trans_correlations r.request_id)) [
      | inl f ↦ rw (e, f, on_received_frame_ready) (omega arith)
      | inr (c, f) ↦
          rw (e, f, on_received_frame_ready) (omega (arith, taken s r.request_id c p id keyed f))
    ]
  ]

  pub run_count :
      (p : TransCorrelation → Bool) (id : ℕ) (es : List Event) (s : TransService)
      → IsKeyed s
      → handled p id (run try_parse_response es s).0 + waits p id (run try_parse_response es s).1
        ≤ sent try_parse_response p id es s + waits p id s
  run_count p id [] s keyed = omega arith
  run_count p id (e ∷ es) s keyed =
      let (h, s1) = handle try_parse_response e s in
      let one = handle_count p id e s keyed in
      let rest = run_count p id es s1 (handle-IsKeyed e s keyed) in
      omega (arith, one, rest, handled-log p id h (run try_parse_response es s1).0)
