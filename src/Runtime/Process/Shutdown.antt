-- ===== src/Runtime/Process/Shutdown.antt =====
-- `shutdown` of packages/plugin-runtime/src/process-main.ts, under signals that come while the
-- server closes.
use ts_plugins.Common.{
  any, not, if◌then◌else◌, ℕ, zero, suc, ◌≡◌, refl, Bool, true, false, List, [], ◌∷◌, ◌++◌,
}

-- A SIGINT or a SIGTERM, and the end of a call of `server.close()`.
pub data ProcessEvent : Type 0 where
  signal server_closed : ProcessEvent

pub record ProcessState : Type 0 where
  pub closing : Bool
  -- The calls of `server.close()` that are under way, those that there were, and the exit codes.
  pub pending : ℕ
  pub closes : ℕ
  pub exits : List ℕ

abbrev pub running : ProcessState
running = record { closing = false; pending = 0; closes = 0; exits = [] }

-- `shutdown(0)` up to its await.
abbrev pub shutdown : Bool → ProcessState → ProcessState
shutdown true s = s
shutdown false s = record s { closing = true; pending = suc s.pending; closes = suc s.closes }

-- `process.exit(exitCode)`, if a call has ended.
abbrev pub exit_after : ℕ → ProcessState → ProcessState
exit_after zero s = s
exit_after (suc n) s = record s { pending = n; exits = s.exits ++ 0 ∷ [] }

abbrev pub on_event : ProcessState → ProcessEvent → ProcessState
on_event s signal = shutdown s.closing s
on_event s server_closed = exit_after s.pending s

unfoldable pub on_events : ProcessState → List ProcessEvent → ProcessState
on_events s [] = s
on_events s (e ∷ events) = on_events (on_event s e) events

abbrev pub is_signal : ProcessEvent → Bool
is_signal signal = true
is_signal server_closed = false

-- Whether a call of `server.close()` ends behind a signal.
abbrev pub is_closed : List ProcessEvent → Bool
is_closed [] = false
is_closed (signal ∷ events) = any (λ e. not (is_signal e)) events
is_closed (server_closed ∷ events) = is_closed events

abbrev closed_state : ℕ → List ℕ → ProcessState
closed_state closes exits = record { closing = true; pending = 0; closes = closes; exits = exits }

abbrev closing_state : ℕ → List ℕ → ProcessState
closing_state closes exits = record { closing = true; pending = 1; closes = closes; exits = exits }

-- After the exit nothing happens any more.
on_events-closed :
    (closes : ℕ) (exits : List ℕ) (events : List ProcessEvent)
    → on_events (closed_state closes exits) events ≡ closed_state closes exits
unfolding on_events
on_events-closed closes exits [] = refl
on_events-closed closes exits (signal ∷ events) = on_events-closed closes exits events
on_events-closed closes exits (server_closed ∷ events) = on_events-closed closes exits events

on_events-closing :
    (closes : ℕ) (exits : List ℕ) (events : List ProcessEvent)
    → on_events (closing_state closes exits) events ≡ (
        if any (λ e. not (is_signal e)) events
        then closed_state closes (exits ++ 0 ∷ [])
        else closing_state closes exits)
unfolding on_events
on_events-closing closes exits [] = refl
on_events-closing closes exits (signal ∷ events) = on_events-closing closes exits events
on_events-closing closes exits (server_closed ∷ events) =
    on_events-closed closes (exits ++ 0 ∷ []) events

-- However signals and the ends of closing come, `server.close` has been called once if there was a
-- signal, and not at all otherwise; and the process has exited, once and with the code 0, exactly if
-- that call has ended: the end of a call came behind the first signal.
pub on_events_once :
    (events : List ProcessEvent)
    → let s = on_events running events in
      (s.closes ≡ (if any is_signal events then 1 else 0))
      × (s.exits ≡ (if is_closed events then 0 ∷ [] else []))
unfolding on_events
on_events_once [] = (refl, refl)
on_events_once (server_closed ∷ events) = on_events_once events
on_events_once (signal ∷ events) = rw (on_events-closing 1 [] events) (by_end _)
  where
    by_end :
        (b : Bool)
        → let s = if b then closed_state 1 (0 ∷ []) else closing_state 1 [] in
          (s.closes ≡ 1) × (s.exits ≡ (if b then 0 ∷ [] else []))
    by_end true = (refl, refl)
    by_end false = (refl, refl)
