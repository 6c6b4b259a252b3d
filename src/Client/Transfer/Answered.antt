-- ===== src/Client/Transfer/Answered.antt =====
-- The response to a request reaches the handler of the request.
use project_trans.Base.{
  ℕ, suc, ◌+◌, ◌%◌, ◌^◌, ◌<◌, ◌≡◌, ◌≢◌, refl, ap, ◌∙◌, arith, inl, inr, Option-cases, ne→==, All,
}
use project_trans.Base.{Option, none, some, List, [], ◌∷◌, eq→==}
use project_trans.Client.Schedule.{NetworkEndpoint}
use project_trans.Client.Transfer.{
  Kind, TransService, correlate, send_request, time_out, remove_response_handler, ResponseEnvelope,
  on_received_frame_ready,
}
use project_trans.Client.Transfer.Events.{
  Event, send, time_is_over, remove, received, correlation_of, requests, handle, run,
}
use project_trans.Client.Transfer.Once.{counter-time_out, counter-received}

module _ (try_parse_response : List ℕ → Option ResponseEnvelope) where
  -- The event neither ends nor answers the request of the id.
  abbrev pub IsApart : ℕ → Event → Type 0
  IsApart id (send kind endpoint) = Unit
  IsApart id (time_is_over k) = id ≢ k
  IsApart id (remove k) = id ≢ k
  IsApart id (received bytes) =
      (r : ResponseEnvelope) → try_parse_response bytes ≡ some r → id ≢ r.request_id

  other_erased :
      (id k : ℕ) (s : TransService)
      → id ≢ k
      → correlate k none s.trans_correlations id ≡ s.trans_correlations id
  other_erased id k s n = rw (ne→== id k n) refl

  kept_time_out :
      (id k : ℕ) (s : TransService)
      → id ≢ k
      → (time_out k s).trans_correlations id ≡ s.trans_correlations id
  unfolding time_out
  kept_time_out id k s n = elim (Option-cases (s.trans_correlations k)) [
    | inl e ↦ rw (e, time_out) refl
    | inr (c, e) ↦ rw (e, time_out) (other_erased id k s n)
  ]

  kept_received :
      (id : ℕ) (bytes : List ℕ) (s : TransService)
      → IsApart id (received bytes)
      → (on_received_frame_ready try_parse_response bytes s).1.trans_correlations id
        ≡ s.trans_correlations id
  unfolding on_received_frame_ready
  kept_received id bytes s n = elim (Option-cases (try_parse_response bytes)) [
    | inl e ↦ rw (e, on_received_frame_ready) refl
    | inr (r, e) ↦ elim (Option-cases (s.trans_correlations r.request_id)) [
      | inl f ↦ rw (e, f, on_received_frame_ready) refl
      | inr (c, f) ↦ rw (e, f, on_received_frame_ready) (other_erased id r.request_id s (n r e))
    ]
  ]

  no_wrap : (n m : ℕ) → suc m + n < 2 ^ 64 → suc n % 2 ^ 64 ≡ suc n
  no_wrap n m h = ground arith

  kept_run :
      (id : ℕ) (es : List Event) (s : TransService) (n : ℕ)
      → All (IsApart id) es
      → s.request_id_counter ≡ n
      → id < n
      → requests es + n < 2 ^ 64
      → (run try_parse_response es s).1.trans_correlations id ≡ s.trans_correlations id
  unfolding send_request remove_response_handler
  kept_run id [] s n all e l h = refl
  kept_run id (send kind endpoint ∷ es) s n (a, all) e l h =
      kept_run id es (handle try_parse_response (send kind endpoint) s).1 (suc n) all
        (ap (λ k. suc k % 2 ^ 64) e ∙ no_wrap n (requests es) h) (omega (arith, l))
        (omega (arith, h))
      ∙ rw (ne→== id s.request_id_counter (λ q. omega (arith, q, e, l))) refl
  kept_run id (time_is_over k ∷ es) s n (a, all) e l h =
      kept_run id es (time_out k s) n all (counter-time_out k s ∙ e) l h ∙ kept_time_out id k s a
  kept_run id (remove k ∷ es) s n (a, all) e l h =
      kept_run id es (remove_response_handler k s) n all e l h ∙ other_erased id k s a
  kept_run id (received bytes ∷ es) s n (a, all) e l h =
      kept_run id es (handle try_parse_response (received bytes) s).1 n all
        (counter-received try_parse_response bytes s ∙ e) l h
      ∙ kept_received id bytes s a

  handled_by :
      (kind : Kind) (endpoint : NetworkEndpoint) (s : TransService) (bytes : List ℕ)
      (r : ResponseEnvelope) (s2 : TransService)
      → try_parse_response bytes ≡ some r
      → s2.trans_correlations r.request_id ≡ some (correlation_of kind endpoint s)
      → (on_received_frame_ready try_parse_response bytes s2).0
        ≡ some (record { correlation = correlation_of kind endpoint s; body = r.body })
  unfolding on_received_frame_ready
  handled_by kind endpoint s bytes r s2 e f = rw (e, f, on_received_frame_ready) refl

  -- A response to a request that was sent, that comes before its time is over and its handler is removed,
  -- and is the first with its id, reaches the handler of the request, with its context and the body of the
  -- response, whatever else was sent and received meanwhile, if the counter does not reach 2 ^ 64.
  pub on_received_frame_ready-send :
      (kind : Kind) (endpoint : NetworkEndpoint) (s : TransService) (es : List Event)
      (bytes : List ℕ) (r : ResponseEnvelope)
      → All (IsApart s.request_id_counter) es
      → suc (requests es) + s.request_id_counter < 2 ^ 64
      → try_parse_response bytes ≡ some r
      → r.request_id ≡ s.request_id_counter
      → (on_received_frame_ready try_parse_response bytes
          (run try_parse_response es (send_request kind endpoint s).1).1).0
        ≡ some (record { correlation = correlation_of kind endpoint s; body = r.body })
  unfolding send_request
  on_received_frame_ready-send kind endpoint s es bytes r all h e same =
      let s1 = (send_request kind endpoint s).1 in
      let id = s.request_id_counter in
      let there : (run try_parse_response es s1).1.trans_correlations id
          ≡ some (correlation_of kind endpoint s) =
        kept_run id es s1 (suc id) all (no_wrap id (requests es) h) (omega arith) (omega (arith, h))
        ∙ rw (eq→== id id refl) refl in
      handled_by kind endpoint s bytes r (run try_parse_response es s1).1 e (rw same there)
