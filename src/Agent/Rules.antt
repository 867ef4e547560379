-- ===== src/Agent/Rules.antt =====
-- The steps of Run.antt follow the machine.
use memax_go_agent_sdk.Prelude.{
  true, arith, ℕ, suc, [], ◌∷◌, ◌++◌, false, Option, none, some, Result, ok, err, ◌≡◌, refl,
  Bool-cases, inl, inr, if◌then◌else◌,
}
use memax_go_agent_sdk.Model.{Message, is_user_role}
use memax_go_agent_sdk.Session.Store.{Error, Store, NewId, append}
use memax_go_agent_sdk.Agent.Events.{RunError, StopReason, Event, Body, new_event, stopped_error}
use memax_go_agent_sdk.Agent.Heeded.{is_heeded}
use memax_go_agent_sdk.Agent.Run.{
  Run, Host, Step, ◌>>=◌, return, end_turn, stop, current, ask, addressed, deliver, emit, send,
  finish, fail, or_fail, fail_if, stored, append_message, append_or_fail,
}
use memax_go_agent_sdk.Agent.Machine.{
  Ledger, live, asking, finished, interrupted, IsOver, IsOpen, over_finished, over_interrupted,
  Interrupted, unheard, asks, tells, loses, finishes, interrupts, appends, prompts, gives_up,
  Reaches, Reaches-trans, here, move, once, prepend, weaken, EndsWell, Follows, bind,
}

-- Nothing is known of a value.
abbrev pub Any : {A : Type 0} → A → Type 0
Any a = Unit

module _ (host : Host) where
  pub return_follows :
      {A : Type 0} (l : Ledger) (V : A → Type 0) (a : A) → V a → Follows host l (return a) l V
  return_follows l V a v = record { at = λ s. (here l s, v) }

  pub forget :
      {A : Type 0} {l k : Ledger} {m : Step A} {V : A → Type 0}
      → Follows host l m k V
      → Follows host l m k Any
  forget first = weaken host (λ a _. tt) first

  pub end_turn_follows :
      {A : Type 0} (m t : ℕ) (k : Ledger) (V : A → Type 0) → Follows host (live m t) end_turn k V
  end_turn_follows m t k V = record { at = λ s. (m, t, here _ s) }

  pub stop_follows :
      {A : Type 0} (l k : Ledger) (V : A → Type 0) → IsOver l → Follows host l stop k V
  stop_follows l k V o = record { at = λ s. (l, o, here l s) }

  pub ask_follows : {A : Type 0} (l : Ledger) (q : Run → A) → Follows host l (ask q) l Any
  unfolding ask
  ask_follows l q = record { at = λ s. (once host (asks l s), tt) }

  pub current_follows : (l : Ledger) → Follows host l current l Any
  current_follows l = record { at = λ s. (here l s, tt) }

  pub deliver_follows : (l : Ledger) (e : Event) → IsOpen l → Follows host l (deliver host e) l Any
  unfolding deliver ask
  deliver_follows l e o = record {
    at = λ s. elim (Bool-cases (host.received e s)) [
      | inl h ↦ rw h (move _ _ _ _ _ _ (asks l s) (once host (tells l _ e o)), tt)
      | inr h ↦ rw h (move _ _ _ _ _ _ (asks l s) (once host (loses l _ e o)), tt)
    ];
  }

  pub emit_follows : (l : Ledger) (e : Event) → IsOpen l → Follows host l (emit host e) l Any
  unfolding emit
  emit_follows l e o = deliver_follows l (addressed host e) o

  pub interrupt_at :
      {A : Type 0} (m t : ℕ) (k : Ledger) (V : A → Type 0) (s u : Run)
      → Reaches host (live m t) s (live m t) u
      → Interrupted host u
      → EndsWell host (live m t) s k V (stop u)
  interrupt_at m t k V s u way why =
      (interrupted, over_interrupted, Reaches-trans host way (once host (interrupts m t u why)))

  addressed-heeded :
      (e : Event) → is_heeded e.body ≡ true → is_heeded (addressed host e).body ≡ true
  addressed-heeded e h = ground arith

  -- An event, and what follows if it was taken; an event that nobody takes stops the run.
  pub told_follows :
      (m t : ℕ) (sent : Event) (next : Step (Unit {0}))
      → is_heeded sent.body ≡ true
      → Follows host (live m t) next (live m t) Any
      → Follows host (live m t) (do got ← emit host sent; if got then next else stop) (live m t) Any
  unfolding emit deliver ask
  told_follows m t sent next heeded later = record {
    at = λ s.
        let l = live m t in
        let e = addressed host sent in
        let read : Run = record s { asked = suc s.asked } in
        let told : Run = record read { events = s.events ++ e ∷ [] } in
        let missed : Run = record read { lost = s.lost ++ e ∷ [] } in
        elim (Bool-cases (host.received e s)) [
          | inl h ↦
              rw (EndsWell, h)
                (prepend host l l l Any s told
                  (move l l l s read told (asks l s) (once host (tells l read e tt))) (next told)
                  (later.at told))
          | inr h ↦
              rw (EndsWell, h)
                (interrupt_at {A = Unit {0}} m t l Any s missed
                  (move l l l s read missed (asks l s) (once host (loses l read e tt)))
                  (unheard s.lost e refl (addressed-heeded sent heeded)))
        ];
  }

  pub send_follows :
      (m t turn : ℕ) (b : Body)
      → is_heeded b ≡ true
      → Follows host (live m t) (send host turn b) (live m t) Any
  unfolding send
  send_follows m t turn b h =
      told_follows m t (new_event host.session_id turn b) (return tt) h (return_follows _ _ tt tt)

  pub finish_follows :
      (m t turn : ℕ) (reason : StopReason) (e : Option RunError)
      → Follows host (live m t) (finish host turn reason e) finished Any
  unfolding finish ask
  finish_follows m t turn reason e = record {
    at = λ s. (
      move _ _ _ _ _ _ (finishes m t s (record { turn = turn; reason = reason; error = e }))
          (move _ _ _ _ _ _ (asks finished _) (once host (asks finished _))),
      tt,
    );
  }

  pub fail_follows :
      {A : Type 0} (m t turn : ℕ) (reason : StopReason) (e : RunError) (k : Ledger) (V : A → Type 0)
      → Follows host (live m t) (fail host turn reason e) k V
  unfolding fail
  fail_follows m t turn reason e k V =
      bind host (emit_follows (live m t) (new_event host.session_id turn (Body.failed e)) tt)
        (λ _ _.
          bind host (finish_follows m t turn reason (some e))
            (λ _ _. stop_follows finished k V over_finished))

  pub or_fail_follows :
      {A E : Type 0} (m t turn : ℕ) (reason : StopReason) (wrap : E → RunError) (r : Result E A)
      → Follows host (live m t) (or_fail host turn reason wrap r) (live m t) (λ a. r ≡ ok a)
  unfolding or_fail
  or_fail_follows m t turn reason wrap (ok a) = return_follows _ _ a refl
  or_fail_follows m t turn reason wrap (err e) = fail_follows m t turn reason (wrap e) _ _

  pub fail_if_follows :
      (m t turn : ℕ) (reason : StopReason) (e : Option RunError)
      → Follows host (live m t) (fail_if host turn reason e) (live m t) Any
  unfolding fail_if
  fail_if_follows m t turn reason none = return_follows _ _ tt tt
  fail_if_follows m t turn reason (some e) = fail_follows m t turn reason e _ _

  stored_at :
      (m t : ℕ) (s : Run) (x : Message) (id : NewId) (r : Result Error Store)
      → is_user_role x.role ≡ false
      → append host.json_valid s.store host.session_id x id ≡ r
      → EndsWell host (live m t) s (live m t) Any (stored host r s)
  stored_at m t s x id (ok new) u h = (once host (appends m t s x id new u h), tt)
  stored_at m t s x id (err e) u h = (here _ s, tt)

  -- A message of the run, which is not a prompt.
  pub append_message_follows :
      (m t : ℕ) (x : Message)
      → is_user_role x.role ≡ false
      → Follows host (live m t) (append_message host x) (live m t) Any
  unfolding append_message ask
  append_message_follows m t x u = record {
    at = λ s.
        let later : Run = record s { asked = suc s.asked } in
        let r = append host.json_valid s.store host.session_id x (host.fresh s) in
        prepend host (live m t) (live m t) (live m t) Any s later (once host (asks _ s))
          (stored host r later) (stored_at m t later x (host.fresh s) r u refl);
  }

  pub append_or_fail_follows :
      (m t turn : ℕ) (wrap : Error → RunError) (x : Message)
      → is_user_role x.role ≡ false
      → Follows host (live m t) (append_or_fail host turn wrap x) (live m t) Any
  unfolding append_or_fail
  append_or_fail_follows m t turn wrap x u =
      bind host (append_message_follows m t x u)
        (λ r _. forget (or_fail_follows m t turn stopped_error wrap r))

  prompted_at :
      (m t : ℕ) (s : Run) (x : Message) (id : NewId) (r : Result Error Store)
      → append host.json_valid s.store host.session_id x id ≡ r
      → EndsWell host (asking m t) s (live m t) Any (stored host r s)
  prompted_at m t s x id (ok new) h = (once host (prompts m t s x id new h), tt)
  prompted_at m t s x id (err e) h = (once host (gives_up m t s), tt)

  -- A prompt for another answer.
  pub prompt_or_fail_follows :
      (m t turn : ℕ) (wrap : Error → RunError) (x : Message)
      → Follows host (asking m t) (append_or_fail host turn wrap x) (live m t) Any
  unfolding append_or_fail append_message ask
  prompt_or_fail_follows m t turn wrap x =
      bind host
        (record {
          at = λ s.
              let later : Run = record s { asked = suc s.asked } in
              let r = append host.json_valid s.store host.session_id x (host.fresh s) in
              prepend host (asking m t) (asking m t) (live m t) Any s later (once host (asks _ s))
                (stored host r later) (prompted_at m t later x (host.fresh s) r refl);
        })
        (λ r _. forget (or_fail_follows m t turn stopped_error wrap r))
