-- ===== src/Notify/Monitor/Queue.antt =====
-- Which alerts the messages carry, and which of them are lost where Telegram takes no message.
use mathlib.Core.List.{append-nil, append_assoc}
use oc_piloci.Prelude.{
  ℕ, ◌≡◌, refl, sym, ap, ◌∙◌, List, [], ◌∷◌, ◌++◌, Bool, true, false, ◌&&◌, if◌then◌else◌, arith,
  Bool-cases, inl, inr, Floats,
}
use oc_piloci.Notify.Alerts.{FiredAlert}
use oc_piloci.Notify.Monitor.{
  Sent, single, consolidated, deliver, deliver_each, HealthSettings, Monitor, Message, Readings,
  iterate, evaluate_all,
}

module _ {M : Type 0} where
  -- The alerts that messages are made of, in order.
  abbrev pub contents : List (Sent M × Bool) → List (FiredAlert M)
  contents [] = []
  contents ((single a, taken) ∷ ms) = a ∷ contents ms
  contents ((consolidated q, taken) ∷ ms) = q ++ contents ms

  contents-append :
      (xs ys : List (Sent M × Bool)) → contents (xs ++ ys) ≡ contents xs ++ contents ys
  contents-append [] ys = refl
  contents-append ((single a, b) ∷ xs) ys = ap (◌∷◌ a) (contents-append xs ys)
  contents-append ((consolidated q, b) ∷ xs) ys =
      ap (◌++◌ q) (contents-append xs ys) ∙ sym (append_assoc q (contents xs) (contents ys))

module _ {M : Type 0} (takes : Sent M → Bool) where
  each_inside :
      (queue fired : List (FiredAlert M))
      → ((deliver_each takes true queue fired).0 ≡ queue)
        × (contents (deliver_each takes true queue fired).1 ≡ fired)
  each_inside queue [] = (refl, refl)
  each_inside queue (a ∷ fired) =
      ((each_inside queue fired).0, ap (◌∷◌ a) (each_inside queue fired).1)

  each_outside :
      (queue fired : List (FiredAlert M))
      → ((deliver_each takes false queue fired).0 ≡ queue ++ fired)
        × ((deliver_each takes false queue fired).1 ≡ [])
  each_outside queue [] = (sym (append-nil queue), refl)
  each_outside queue (a ∷ fired) = (
    (each_outside (queue ++ a ∷ []) fired).0 ∙ append_assoc queue (a ∷ []) fired,
    (each_outside (queue ++ a ∷ []) fired).1,
  )

  -- Within the active hours the queue is emptied and every alert, those that waited first, is handed
  -- over in order; outside of them nothing is, and what fired joins the queue behind the rest.
  pub deliver_lem :
      (in_window : Bool) (queue fired : List (FiredAlert M))
      → let r = deliver takes in_window queue fired in
        (r.0 ≡ (if in_window then [] else queue ++ fired))
        × (contents r.1 ≡ (if in_window then queue ++ fired else []))
  unfolding deliver
  deliver_lem true [] fired = ground (arith, each_inside [] fired)
  deliver_lem true (a ∷ queue) fired = ground (arith, each_inside [] fired)
  deliver_lem false queue fired = ground (arith, each_outside queue fired)

  deliver_conserves :
      (in_window : Bool) (queue fired : List (FiredAlert M))
      → contents (deliver takes in_window queue fired).1 ++ (deliver takes in_window queue fired).0
        ≡ queue ++ fired
  deliver_conserves true queue fired = rw (
    (deliver_lem true queue fired).0,
    (deliver_lem true queue fired).1,
    append-nil (queue ++ fired),
  )
  deliver_conserves false queue fired =
      rw ((deliver_lem false queue fired).0, (deliver_lem false queue fired).1)

-- What one iteration meets.
pub record Tick (F : Type 0) : Type 0 where
  pub now : ℕ
  pub in_window : Bool
  pub readings : Readings F
  -- Whether Telegram takes a message.
  pub takes : Sent (Message F) → Bool

module _ {F : Type 0} (fl : Floats F) (s : HealthSettings F) where
  -- The monitor after the iterations, what fired in them, and what was sent.
  pub watch :
      Monitor F
      → List (Tick F)
      → Monitor F × List (FiredAlert (Message F)) × List (Sent (Message F) × Bool)
  watch m [] = (m, [], [])
  watch m (k ∷ ks) =
      let r = iterate fl s k.takes m k.now k.in_window k.readings in
      let rest = watch r.0 ks in
      let fired =
        if s.health_monitor_enabled && s.has_telegram_bot_token
        then (evaluate_all fl s k.now k.readings m.trackers).1
        else [] in
      (rest.0, fired ++ rest.1, r.1 ++ rest.2)

  iterate_conserves :
      (m : Monitor F) (k : Tick F)
      → let r = iterate fl s k.takes m k.now k.in_window k.readings in
        contents r.1 ++ r.0.pending_queue
        ≡ m.pending_queue
          ++ (if s.health_monitor_enabled && s.has_telegram_bot_token
              then (evaluate_all fl s k.now k.readings m.trackers).1
              else [])
  unfolding iterate
  iterate_conserves m k = elim (Bool-cases (s.health_monitor_enabled && s.has_telegram_bot_token)) [
    | inl e ↦
        rw (e, iterate)
          (deliver_conserves k.takes k.in_window m.pending_queue
            (evaluate_all fl s k.now k.readings m.trackers).1)
    | inr e ↦ rw (e, append-nil m.pending_queue)
  ]

  -- Over any sequence of iterations, in and out of the active hours, the alerts that messages are made
  -- of, and then those still queued, are those queued before and then those that fired, each once and
  -- in order, whether Telegram takes a message or not: no alert of a message that it does not take
  -- is queued or sent again.
  pub watch_conserves :
      (m : Monitor F) (ks : List (Tick F))
      → contents (watch m ks).2 ++ (watch m ks).0.pending_queue ≡ m.pending_queue ++ (watch m ks).1
  unfolding watch
  watch_conserves m [] = sym (append-nil m.pending_queue)
  watch_conserves m (k ∷ ks) =
      let r = iterate fl s k.takes m k.now k.in_window k.readings in
      let rest = watch r.0 ks in
      ap (λ (l : List (FiredAlert (Message F))). l ++ rest.0.pending_queue)
        (contents-append r.1 rest.2)
      ∙ append_assoc (contents r.1) (contents rest.2) rest.0.pending_queue
      ∙ ap (◌++◌ (contents r.1)) (watch_conserves r.0 ks)
      ∙ sym (append_assoc (contents r.1) r.0.pending_queue rest.1)
      ∙ ap (λ (l : List (FiredAlert (Message F))). l ++ rest.1) (iterate_conserves m k)
      ∙ append_assoc m.pending_queue _ rest.1
