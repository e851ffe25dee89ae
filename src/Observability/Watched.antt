-- ===== src/Observability/Watched.antt =====
-- The middlewares of cmd/api/main.go around a handler: what the client gets, against what is logged and
-- counted.
use mathlib.Core.Path.{subst}
use locker.Prelude.{
  ℕ, ◌≡◌, refl, sym, ◌∙◌, ap, Option, none, some, List, [], ◌∷◌, ◌++◌, Text, codes, text_eq,
  Option-cases, inl, inr,
}
use locker.Strings.{to_lower}
use locker.Observability.{
  Writer, Request, Outcome, returned, panicked, Telemetry, context_with_request_id,
  ensure_request_id, request_id_from_context, request_path_label,
}
use locker.Observability.Logger.{
  Logger, Payload, text, number, thing, field, put, with_fields, written, info, error,
}
use locker.Observability.Middleware.{
  Recorder, recording, recorder, or_ok, sample, Times, stack, request_id_middleware,
  recovery_middleware, metrics_middleware, logging_middleware, request_line, panic_line, recovered,
  recovering, counting, logging,
}
use locker.Observability.Replies.{Deed, play, Reply, replying}
use locker.Observability.Recorded.{
  id_header, IsConnection, IsOnce, Spares, recorded, or_default, under-play, status_code-play,
  sent-play, id-play,
}

-- What is known of a request once it is served: one line and one sample, with the status and the id
-- that the client gets.
pub record IsWatched (m : Times) (r : Request) (status : Option ℕ) (header : Option Text)
    (o : Outcome) (t after : Telemetry) : Type 0 where
  pub ended : o ≡ returned
  pub line : Payload
  pub logged : after.lines ≡ t.lines ++ line ∷ []
  pub line_id : field (codes "request_id") line ≡ some (text (ensure_request_id m.arrived r))
  pub line_status : field (codes "status") line ≡ some (number (or_default status))
  pub counted : after.samples ≡ t.samples ++ sample r (or_default status) m.counted ∷ []
  pub answered_id : header ≡ some (ensure_request_id m.arrived r)

abbrev pub or_failed : Option ℕ → ℕ
or_failed none = 500
or_failed (some n) = n

-- What is known of a request whose handler panics, by the status that it has sent before: the client
-- gets an answer, one line with the id and the panic is logged, and nothing is counted.
pub record IsRecovered (m : Times) (r : Request) (what : Text) (before status : Option ℕ)
    (header : Option Text) (o : Outcome) (t after : Telemetry) : Type 0 where
  pub ended : o ≡ returned
  pub line : Payload
  pub logged : after.lines ≡ t.lines ++ line ∷ []
  pub line_id : field (codes "request_id") line ≡ some (text (ensure_request_id m.arrived r))
  pub line_panic : field (codes "panic") line ≡ some (thing what)
  pub uncounted : after.samples ≡ t.samples
  pub answered : status ≡ some (or_failed before)
  pub answered_id : header ≡ some (ensure_request_id m.arrived r)

panic_line-id :
    (l : Logger) (r : Request) (what : Text)
    → (field (codes "request_id") (panic_line l r what) ≡ some (text (request_id_from_context r)))
      × (field (codes "panic") (panic_line l r what) ≡ some (thing what))
unfolding field put with_fields written error text_eq
panic_line-id l r what = (refl, refl)

request_line-id :
    (l : Logger) (r : Request) (status took bytes : ℕ)
    → field (codes "request_id") (request_line l r status took bytes)
      ≡ some (text (request_id_from_context r))
unfolding field put with_fields written info text_eq
request_line-id l r status took bytes = refl

request_line-status :
    (l : Logger) (r : Request) (status took bytes : ℕ)
    → field (codes "status") (request_line l r status took bytes) ≡ some (number status)
unfolding field put with_fields written info text_eq
request_line-status l r status took bytes = refl

module _ {S : Type 0} (w : Writer S) {status : S → Option ℕ} {id : S → Option Text}
    (c : IsConnection w status id) (m : Times) (app : Request → Reply) (r : Request) (s : S)
    (t : Telemetry) where
  abbrev rid : Text
  rid = ensure_request_id m.arrived r

  abbrev inside : Request
  inside = context_with_request_id rid r

  abbrev deeds : List Deed
  deeds = (app inside).deeds

  abbrev after : Outcome × S × Telemetry
  after = stack m (replying app) S w r s t

  -- The connection behind both recorders.
  twice_under :
      (s : S)
      → (play (recording (recording w)) deeds (recorder (recorder s))).under.under ≡ play w deeds s
  twice_under s =
      ap (λ x. x.under) (under-play (recording w) deeds (recorder (recorder s)))
      ∙ under-play w deeds (recorder s)

  inner_code :
      (s : S)
      → (play (recording (recording w)) deeds (recorder (recorder s))).under.status_code
        ≡ recorded 0 deeds
  inner_code s =
      ap (λ x. x.status_code) (under-play (recording w) deeds (recorder (recorder s)))
      ∙ status_code-play w deeds (recorder s)

  outer_code :
      (s : S)
      → (play (recording (recording w)) deeds (recorder (recorder s))).status_code
        ≡ recorded 0 deeds
  outer_code s = status_code-play (recording w) deeds (recorder (recorder s))

  abbrev marked : S
  marked = w.set_header id_header rid s

  abbrev seen : Recorder (Recorder S)
  seen = play (recording (recording w)) deeds (recorder (recorder marked))

  -- All that stands behind the handler's call, by how the handler has ended.
  abbrev behind : Outcome → Outcome × S × Telemetry
  behind o =
      recovering m.logger w inside
        (counting m.counted inside (logging m.logger m.logged inside (o, seen, t)))

  stack-behind : {o : Outcome} → (app inside).outcome ≡ o → after ≡ behind o
  unfolding stack request_id_middleware recovery_middleware metrics_middleware logging_middleware
  stack-behind h = ap behind h

  module _ (fresh : status s ≡ none) (spares : Spares deeds) where
    unsent : status marked ≡ none
    unsent = c.same_status id_header rid s ∙ fresh

    id_kept : id seen.under.under ≡ some rid
    id_kept = ap id (twice_under marked) ∙ id-play w c deeds marked spares ∙ c.set_id rid s fresh

    shown_status : IsOnce deeds → or_default (status seen.under.under) ≡ or_ok (recorded 0 deeds)
    shown_status once =
        ap (λ x. or_default (status x)) (twice_under marked)
        ∙ sent-play w c deeds marked once unsent

    pub stack-status :
        IsOnce deeds
        → (app inside).outcome ≡ returned
        → or_default (status after.1) ≡ or_ok (recorded 0 deeds)
    stack-status once h = ap (λ x. or_default (status x.1)) (stack-behind h) ∙ shown_status once

    -- Where a handler ends without a panic, gives its status, of three digits from 200, once and before its
    -- first byte, and leaves the header of the id alone: exactly one line is logged and one sample counted, both with the
    -- status that the client gets, and the line with the id that the client gets.
    pub stack-IsWatched :
        IsOnce deeds
        → (app inside).outcome ≡ returned
        → IsWatched m r (status after.1) (id after.1) after.0 t after.2
    unfolding request_path_label request_id_from_context
    stack-IsWatched once h =
        subst (λ x. IsWatched m r (status x.1) (id x.1) x.0 t x.2) (sym (stack-behind h))
          (record {
            ended = refl;
            line = request_line m.logger inside (or_ok seen.status_code) m.logged seen.bytes;
            logged = refl;
            line_id = request_line-id m.logger inside (or_ok seen.status_code) m.logged seen.bytes;
            line_status =
                request_line-status m.logger inside (or_ok seen.status_code) m.logged seen.bytes
                ∙ ap (λ n. some (number n))
                    (ap or_ok (outer_code marked) ∙ sym (shown_status once));
            counted =
                ap (λ n. t.samples ++ sample r n m.counted ∷ [])
                  (ap or_ok (inner_code marked) ∙ sym (shown_status once));
            answered_id = id_kept;
          })

    -- The answer of the deferred function counts only where nothing was sent before.
    recovered-status : (x : S) → status (recovered w x) ≡ some (or_failed (status x))
    recovered-status x =
        let x' = w.set_header (codes "Content-Type") (codes "application/json; charset=utf-8") x in
        let same : status x' ≡ status x = c.same_status _ _ x in
        elim (Option-cases (status x)) [
          | inl e ↦
              rw e (
                c.later_write _ 500 (w.write_header 500 x') (c.first_header 500 x' refl (same ∙ e)))
          | inr (n, e) ↦
              rw e (
                c.later_write _ n (w.write_header 500 x') (c.later_header 500 n x' refl (same ∙ e)))
        ]

    recovered-id : (x : S) → id (recovered w x) ≡ id x
    unfolding text_eq to_lower
    recovered-id x =
        c.write_kept _ _ ∙ c.header_kept 500 _ refl ∙ c.set_other (codes "Content-Type") _ x refl

    -- Where a handler panics, having given only statuses of three digits from 200 and left the header of
    -- the id alone: the client gets status 500, or the
    -- status that was sent before the panic; one line with the id that the client gets and with the
    -- panic is logged; and the request is not counted.
    pub stack-IsRecovered :
        {what : Text}
        → (app inside).outcome ≡ panicked what
        → IsRecovered m r what
            (status (play w deeds marked))
            (status after.1)
            (id after.1)
            after.0
            t
            after.2
    unfolding request_id_from_context
    stack-IsRecovered {what} h =
        subst
          (λ x. IsRecovered m r what (status (play w deeds marked)) (status x.1) (id x.1) x.0 t x.2)
          (sym (stack-behind h))
          (record {
            ended = refl;
            line = panic_line m.logger inside what;
            logged = refl;
            line_id = (panic_line-id m.logger inside what).0;
            line_panic = (panic_line-id m.logger inside what).1;
            uncounted = refl;
            answered =
                recovered-status seen.under.under
                ∙ ap (λ x. some (or_failed (status x))) (twice_under marked);
            answered_id = recovered-id seen.under.under ∙ id_kept;
          })
