-- ===== src/Xswd/Dispatcher/Settles.antt =====
-- The steps that pay what the handler owes.
use xelis_wallet_flutter.Base.{
  ℕ, ◌+◌, ◌≡◌, ◌∙◌, Bool, true, false, Option, none, some, List, [], ◌∷◌, ◌++◌, arith, nat_eq,
  String,
}
use xelis_wallet_flutter.Base.Results.{Result, ok, err}
use xelis_wallet_flutter.Xswd.Payload.{NativeXswdPayloadToken, XswdPayloadProjectionError}
use xelis_wallet_flutter.Xswd.Registry.{XswdSessionRegistry, XswdSessionReferenceError, code}
use xelis_wallet_flutter.Xswd.Dispatcher.{
  Effect, XswdRequestSummary, PreparedXswdNotification, ActiveXswdCallback, Handler,
}
use xelis_wallet_flutter.Xswd.Dispatcher.Answers.{fail_kind, cancel_active}
use xelis_wallet_flutter.Xswd.Dispatcher.Queue.{is_app_disconnect}
use xelis_wallet_flutter.Xswd.Dispatcher.Prepare.{
  Moment, PreparedXswdEvent, decision, lifecycle, handled, XswdLifecycleEvent, cancelled_event,
  disconnected_event, PendingXswdDecision, Preparation, acknowledge, ask, with_payload,
  start_notification, prepare_xswd_lifecycle_notification,
}
use xelis_wallet_flutter.Xswd.Dispatcher.Loop.{
  begin, begin_if, handle_lifecycle, handle_prepared, drop_active, emit, invalidate_if,
}
use xelis_wallet_flutter.Xswd.Dispatcher.Debt.{
  hit, owed_response, owed_active, owed_deferred, asked, answered, asked-append, answered-append,
  Pays, fail_kind-Pays,
}

abbrev pub owed_lifecycle : ℕ → XswdLifecycleEvent → ℕ
owed_lifecycle c (cancelled_event state callback) = hit c callback
owed_lifecycle c (disconnected_event state) = 0

abbrev pub owed_prepared : {N : Type 0} → ℕ → PreparedXswdEvent N → ℕ
owed_prepared c (decision d) = owed_response c d.response
owed_prepared c (lifecycle event) = owed_lifecycle c event
owed_prepared c handled = 0

acknowledge-Pays :
    (N F : Type 0) (c : ℕ) (event : XswdLifecycleEvent)
    → Pays c (owed_lifecycle c event) (acknowledge {N = N} {F = F} event).2
acknowledge-Pays N F c (cancelled_event state callback) = omega arith
acknowledge-Pays N F c (disconnected_event state) = omega arith

module _ {N F : Type 0} (c : ℕ) where
  -- What was answered to the sender, and what it is still owed.
  abbrev pub debt : Handler N F → ℕ
  debt h = answered c h.effects + (owed_deferred c h.deferred + owed_active c h.active)

  -- From `h` to `h'` no event is taken, and `n` answers that were due already are sent or owed.
  pub record Settles (n : ℕ) (h h' : Handler N F) : Type 0 where
    pub taken : asked c h'.effects ≡ asked c h.effects
    pub paid : debt h' ≡ debt h + n

  pub Settles-trans :
      {m n : ℕ} {f g h : Handler N F} → Settles m f g → Settles n g h → Settles (m + n) f h
  Settles-trans a b = record { taken = b.taken ∙ a.taken; paid = omega (arith, a.paid, b.paid) }

  pub begin-Settles :
      (n : PreparedXswdNotification F) (h : Handler N F)
      → owed_active c h.active ≡ 0
      → Settles 0 h (begin n h)
  unfolding begin start_notification
  begin-Settles n h idle =
      let es = (start_notification {N = N} n).1 in
      ground (arith, asked-append c h.effects es, answered-append c h.effects es)

  pub begin_if-Settles :
      (h : Handler N F) (n : XswdSessionRegistry × Option (PreparedXswdNotification F))
      → owed_active c h.active ≡ 0
      → Settles 0 h (begin_if h n)
  unfolding begin_if
  begin_if-Settles h (r, none) idle = ground arith
  begin_if-Settles h (r, some n) idle =
      let s = begin-Settles n (record h { xswd_sessions = r }) idle in
      record { taken = s.taken; paid = s.paid }

  -- Effects that pay are sent.
  pub emit-Settles :
      (n : ℕ) (es : List (Effect N F)) (h : Handler N F) → Pays c n es → Settles n h (emit es h)
  emit-Settles n es h p = record {
    taken = omega (arith, p, asked-append c h.effects es);
    paid = omega (arith, p, answered-append c h.effects es);
  }

  -- What a preparation sends, and what the event that it leads to is owed, come to `n`.
  pub record Prepares (n : ℕ) (p : Preparation N F) : Type 0 where
    pub no_event : asked c p.1 ≡ 0
    pub owed : answered c p.1 + owed_prepared c p.2 ≡ n

  pub ask-Prepares :
      (n : ℕ) (callback : XswdRequestSummary F → Effect N F) (fail : String → Effect N F)
      (d : PendingXswdDecision N)
      (result : XswdSessionRegistry × Result XswdSessionReferenceError (XswdRequestSummary F))
      → ((summary : XswdRequestSummary F) → Pays c 0 (callback summary ∷ []))
      → ((text : String) → Pays c n (fail text ∷ []))
      → owed_response c d.response ≡ n
      → Prepares n (ask callback fail d result)
  ask-Prepares n callback fail d (r, err e) asks fails due = ground (arith, fails (code e))
  ask-Prepares n callback fail d (r, ok s) asks fails due = ground (arith, asks s)

  pub with_payload-Prepares :
      (n : ℕ) (r : XswdSessionRegistry) (fail : String → Effect N F)
      (payload : Result XswdPayloadProjectionError (List (NativeXswdPayloadToken F)))
      (next : List (NativeXswdPayloadToken F) → Preparation N F)
      → ((text : String) → Pays c n (fail text ∷ []))
      → ((tokens : List (NativeXswdPayloadToken F)) → Prepares n (next tokens))
      → Prepares n (with_payload r fail payload next)
  with_payload-Prepares n r fail (err e) next fails rest =
      ground (arith, fails "XSWD_PAYLOAD_PROJECTION_FAILED")
  with_payload-Prepares n r fail (ok tokens) next fails rest = rest tokens

  pub handle_prepared-Settles :
      (n : ℕ) (m : Moment) (p : Preparation N F) (h : Handler N F)
      → Prepares n p
      → owed_active c h.active ≡ 0
      → Settles n h (handle_prepared m p h)
  unfolding handle_prepared handle_lifecycle
  handle_prepared-Settles n m (r, es, decision d) h p idle =
      ground (arith, p, asked-append c h.effects es, answered-append c h.effects es)
  handle_prepared-Settles n m (r, es, handled) h p idle =
      ground (arith, p, asked-append c h.effects es, answered-append c h.effects es)
  handle_prepared-Settles n m (r, es, lifecycle event) h p idle =
      let (state, kind, fs) = acknowledge {N = N} {F = F} event in
      let h' = record h { xswd_sessions = r; effects = (h.effects ++ es) ++ fs } in
      let s =
        begin_if-Settles h'
          (prepare_xswd_lifecycle_notification m (invalidate_if (is_app_disconnect kind) m state r)
            state kind false)
          idle in
      record {
        taken =
            s.taken
            ∙ ground (
              arith,
              p,
              acknowledge-Pays N F c event,
              asked-append c h.effects es,
              asked-append c (h.effects ++ es) fs,
            );
        paid =
            s.paid
            ∙ ground (
              arith,
              p,
              acknowledge-Pays N F c event,
              answered-append c h.effects es,
              answered-append c (h.effects ++ es) fs,
            );
      }

  pub drop_active-Settles :
      (cancels : Bool) (active : ActiveXswdCallback N) (h : Handler N F)
      → h.active ≡ some active
      → Settles 0 h (drop_active cancels active h)
  unfolding drop_active cancel_active
  drop_active-Settles true active h is =
      let es = fail_kind {F = F} active.kind "XSWD_REQUEST_CANCELLED" in
      ground (
        arith,
        is,
        fail_kind-Pays F c active.kind "XSWD_REQUEST_CANCELLED",
        asked-append c h.effects es,
        answered-append c h.effects es,
      )
  drop_active-Settles false active h is = ground arith
