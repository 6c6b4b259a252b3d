-- ===== src/Client/Transfer/Once.antt =====
-- Each request is answered at most once, and by its own handler.
use project_trans.Base.{
  ℕ, zero, suc, ◌+◌, ◌%◌, ◌^◌, ◌≤◌, ◌≡◌, refl, sym, ap, ◌∙◌, arith, ◌==◌, if◌then◌else◌, Bool-cases,
  inl, inr, ◌⊎◌, ltb, Option-cases, ==→eq, ==→ne, ◌≢◌,
}
use project_trans.Base.{Bool, true, false, ◌&&◌, Option, List, [], ◌∷◌}
use project_trans.Client.Transfer.{
  TransCorrelation, TransService, new, send_request, time_out, remove_response_handler,
  ResponseEnvelope, on_received_frame_ready,
}
use project_trans.Client.Transfer.Events.{
  Event, send, time_is_over, remove, received, is_of, handled, correlation_of, IsKeyed, requests,
  handle, run, sent,
}
use project_trans.Client.Transfer.Kept.{run_count}

-- Only sending takes an id.
pub counter-time_out :
    (k : ℕ) (s : TransService) → (time_out k s).request_id_counter ≡ s.request_id_counter
unfolding time_out
counter-time_out k s = elim (Option-cases (s.trans_correlations k)) [
  | inl e ↦ rw (e, time_out) refl
  | inr (c, e) ↦ rw (e, time_out) refl
]

module _ (try_parse_response : List ℕ → Option ResponseEnvelope) where
  pub counter-received :
      (bytes : List ℕ) (s : TransService)
      → (on_received_frame_ready try_parse_response bytes s).1.request_id_counter
        ≡ s.request_id_counter
  unfolding on_received_frame_ready
  counter-received bytes s = elim (Option-cases (try_parse_response bytes)) [
    | inl e ↦ rw (e, on_received_frame_ready) refl
    | inr (r, e) ↦ elim (Option-cases (s.trans_correlations r.request_id)) [
      | inl f ↦ rw (e, f, on_received_frame_ready) refl
      | inr (c, f) ↦ rw (e, f, on_received_frame_ready) refl
    ]
  ]

  next_id : (n m : ℕ) → suc m + n ≤ 2 ^ 64 → (m ≡ 0) ⊎ (suc n % 2 ^ 64 ≡ suc n)
  next_id n zero h = inl refl
  next_id n (suc m) h = inr (ground (arith, h))

  is_of_le : (p : TransCorrelation → Bool) (id : ℕ) (c : TransCorrelation) → is_of p id c ≤ 1
  is_of_le p id c = elim (Bool-cases ((c.context.request_id == id) && p c)) [
    | inl b ↦ rw b (omega arith)
    | inr b ↦ rw b (omega arith)
  ]

  sent_le :
      (p : TransCorrelation → Bool) (id : ℕ) (es : List Event) (s : TransService)
      → sent try_parse_response p id es s ≤ requests es
  sent_le p id [] s = omega arith
  sent_le p id (send kind endpoint ∷ es) s = omega (
    arith,
    is_of_le p id (correlation_of kind endpoint s),
    sent_le p id es (handle try_parse_response (send kind endpoint) s).1,
  )
  sent_le p id (time_is_over k ∷ es) s = omega (arith, sent_le p id es (time_out k s))
  sent_le p id (remove k ∷ es) s = omega (arith, sent_le p id es (remove_response_handler k s))
  sent_le p id (received bytes ∷ es) s =
      omega (arith, sent_le p id es (handle try_parse_response (received bytes) s).1)

  is_of_other :
      (p : TransCorrelation → Bool) (id : ℕ) (c : TransCorrelation)
      → (c.context.request_id == id) ≡ false
      → is_of p id c ≡ 0
  is_of_other p id c e = rw e refl

  first_id :
      (i r id n : ℕ)
      → n ≡ id
      → i ≤ 1
      → r ≤ (if ltb id (suc n) then 0 else 1)
      → i + r ≤ (if ltb id n then 0 else 1)
  first_id i r id n e h k = ground arith

  other_id :
      (i r id n : ℕ)
      → n ≢ id
      → i ≡ 0
      → r ≤ (if ltb id (suc n) then 0 else 1)
      → i + r ≤ (if ltb id n then 0 else 1)
  other_id i r id n e h k = ground arith

  no_more : (r m id n : ℕ) → r ≤ m → m ≡ 0 → r ≤ (if ltb id n then 0 else 1)
  no_more r m id n h e = ground arith

  -- From a counter on there is no request with a smaller id, and one with each other id at most.
  sent_bound :
      (p : TransCorrelation → Bool) (id : ℕ) (es : List Event) (s : TransService) (n : ℕ)
      → s.request_id_counter ≡ n
      → requests es + n ≤ 2 ^ 64
      → sent try_parse_response p id es s ≤ (if ltb id n then 0 else 1)
  unfolding send_request remove_response_handler
  sent_bound p id [] s n e h = omega arith
  sent_bound p id (send kind endpoint ∷ es) s n e h =
      let s1 = (handle try_parse_response (send kind endpoint) s).1 in
      let c = correlation_of kind endpoint s in
      let rest : sent try_parse_response p id es s1 ≤ (if ltb id (suc n) then 0 else 1) =
        elim (next_id n (requests es) h) [
          | inl z ↦
              no_more (sent try_parse_response p id es s1) (requests es) id (suc n)
                (sent_le p id es s1) z
          | inr w ↦
              sent_bound p id es s1 (suc n) (ap (λ k. suc k % 2 ^ 64) e ∙ w) (omega (arith, h))
        ] in
      elim (Bool-cases (s.request_id_counter == id)) [
        | inl b ↦
            first_id (is_of p id c) (sent try_parse_response p id es s1) id n
              (sym e ∙ ==→eq s.request_id_counter id b) (is_of_le p id c) rest
        | inr b ↦
            other_id (is_of p id c) (sent try_parse_response p id es s1) id n
              (λ q. ==→ne s.request_id_counter id b (e ∙ q)) (is_of_other p id c b) rest
      ]
  sent_bound p id (time_is_over k ∷ es) s n e h =
      omega (arith, sent_bound p id es (time_out k s) n (counter-time_out k s ∙ e) h)
  sent_bound p id (remove k ∷ es) s n e h =
      omega (arith, sent_bound p id es (remove_response_handler k s) n e h)
  sent_bound p id (received bytes ∷ es) s n e h = omega (
    arith,
    sent_bound p id es (handle try_parse_response (received bytes) s).1 n
        (counter-received bytes s ∙ e) h,
  )

  -- Of a new service that sends 2 ^ 64 requests at most, whatever else happens in whatever order: for each
  -- id, the calls of handlers with some property of the correlation (the context and the callback) are no
  -- more than the requests that were sent with it, and there is one call at most.
  pub run-handled :
      (p : TransCorrelation → Bool) (id : ℕ) (es : List Event)
      → requests es ≤ 2 ^ 64
      → let hs = (run try_parse_response es new).0 in
        (handled p id hs ≤ sent try_parse_response p id es new) × (handled (λ c. true) id hs ≤ 1)
  run-handled p id es h =
      let keyed : IsKeyed new = λ k c e. cc e in
      let one = run_count try_parse_response p id es new keyed in
      let all = run_count try_parse_response (λ c. true) id es new keyed in
      let bound = sent_bound (λ c. true) id es new 0 refl (omega (arith, h)) in
      (omega (arith, one), at_most id _ _ _ all bound)
    where
      at_most : (id a b c : ℕ) → a + b ≤ c + 0 → c ≤ (if ltb id 0 then 0 else 1) → a ≤ 1
      at_most id a b c h k = ground arith
