-- ===== src/Logs/Socket.antt =====
-- The socket that the component holds, over any sequence of clicks and socket events.
use dockstack.Prelude.{
  ℕ, suc, ◌≡◌, ◌≢◌, ◌∙◌, refl, Bool, true, false, none, some, List, [], ◌∷◌, ◌++◌, Text, Bool-cases,
  arith, inl, inr, Option-cases, any, ◌==◌,
}
use dockstack.Logs.{
  Logs, Message, log, end, error, unreadable, other, connect, send_close, close, mount, on_open,
  on_message, on_close, on_error, set_show_timestamp, set_selected_containers, unmount,
  click_stream_button,
}

-- What can happen to a mounted component: a click on the Start or Stop button, a change of the
-- switch or of the selection, and the events of any socket that it ever opened.
pub data Event : Type 0 where
  click : Event
  checked : Bool → Event
  selected : List Text → Event
  opened : (socket : ℕ) → Event
  arrived : (socket : ℕ) → Message → Event
  closed : (socket : ℕ) → Event
  failed : (socket : ℕ) → Event

module _ (le : Text → Text → Bool) where
  pub step : Event → Logs → Logs
  unfolding click_stream_button on_open on_message on_close on_error set_show_timestamp
      set_selected_containers
  step click s = click_stream_button s
  step (checked b) s = set_show_timestamp b s
  step (selected names) s = set_selected_containers names s
  step (opened socket) s = on_open socket s.stack_name s
  step (arrived socket m) s = on_message le m s
  step (closed socket) s = on_close socket s
  step (failed socket) s = on_error socket s

  pub run : List Event → Logs → Logs
  run [] s = s
  run (e ∷ es) s = run es (step e s)

-- The button says Stop exactly when there is a socket to stop, and that socket is the newest.
pub record IsCoupled (s : Logs) : Type 0 where
  pub held : s.streaming ≡ true → s.ws_ref ≢ none
  pub idle : s.streaming ≡ false → s.ws_ref ≡ none
  pub newest : (n : ℕ) → s.ws_ref ≡ some n → suc n ≡ s.next_socket

on_message-IsCoupled :
    (le : Text → Text → Bool) (m : Message) (s : Logs) → IsCoupled s → IsCoupled (on_message le m s)
unfolding on_message
on_message-IsCoupled le (log e) s h = record { held = h.held; idle = h.idle; newest = h.newest }
on_message-IsCoupled le end s h = record { held = λ e. cc; idle = λ e. refl; newest = λ n e. cc }
on_message-IsCoupled le (error m) s h = record {
  held = λ e. cc;
  idle = λ e. refl;
  newest = λ n e. cc;
}
on_message-IsCoupled le unreadable s h = h
on_message-IsCoupled le other s h = h

click-IsCoupled : (s : Logs) → IsCoupled s → IsCoupled (click_stream_button s)
unfolding click_stream_button
click-IsCoupled s h = elim (Bool-cases s.streaming) [
  | inl e ↦ elim (Option-cases s.ws_ref) [
    | inl w ↦ rw (e, w) (record { held = λ x. cc; idle = λ x. refl; newest = λ n x. cc })
    | inr (k, w) ↦ elim (Bool-cases (any (λ n. n == k) s.opened_sockets)) [
      | inl ready ↦
          rw (e, w, ready) (record { held = λ x. cc; idle = λ x. refl; newest = λ n x. cc })
      | inr early ↦
          rw (e, w, early)
            (record { held = λ x. cc; idle = λ x. cc; newest = λ n x. h.newest n (w ∙ x) })
    ]
  ]
  | inr e ↦ rw e (record { held = λ x. cc; idle = λ x. cc; newest = λ n x. ground arith })
]

step-IsCoupled :
    (le : Text → Text → Bool) (e : Event) (s : Logs) → IsCoupled s → IsCoupled (step le e s)
unfolding step set_show_timestamp set_selected_containers
step-IsCoupled le click s h = click-IsCoupled s h
step-IsCoupled le (checked b) s h = record { held = h.held; idle = h.idle; newest = h.newest }
step-IsCoupled le (selected v) s h = record { held = h.held; idle = h.idle; newest = h.newest }
step-IsCoupled le (opened n) s h = record { held = h.held; idle = h.idle; newest = h.newest }
step-IsCoupled le (arrived n m) s h = on_message-IsCoupled le m s h
step-IsCoupled le (closed n) s h = record { held = λ e. cc; idle = λ e. refl; newest = λ k e. cc }
step-IsCoupled le (failed n) s h = record { held = λ e. cc; idle = λ e. refl; newest = λ k e. cc }

run-IsCoupled_from :
    (le : Text → Text → Bool) (es : List Event) (s : Logs) → IsCoupled s → IsCoupled (run le es s)
unfolding run
run-IsCoupled_from le [] s h = h
run-IsCoupled_from le (e ∷ es) s h =
    run-IsCoupled_from le es (step le e s) (step-IsCoupled le e s h)

-- After any sequence of clicks, settings and socket events, stale ones and a click on Stop while the
-- socket is still connecting included, the component streams exactly when it holds a socket, and the socket that it holds is the last one that it opened.
pub run-IsCoupled :
    (le : Text → Text → Bool) (es : List Event) (name : Text) → IsCoupled (run le es (mount name))
unfolding mount
run-IsCoupled le es name =
    run-IsCoupled_from le es (mount name)
      (record { held = λ e. cc; idle = λ e. refl; newest = λ n e. cc })

-- A component that streams on socket `n`, which has opened, and is stopped and started again before the closing
-- handshake of `n` is over, forgets its new socket when `n` closes: the button says Start, the new
-- socket was opened and never closed, and unmounting closes nothing.
pub on_close_stale :
    (s : Logs) (n : ℕ)
    → s.streaming ≡ true
    → s.ws_ref ≡ some n
    → any (λ k. k == n) s.opened_sockets ≡ true
    → let t = on_close n (click_stream_button (click_stream_button s)) in
      (t.streaming ≡ false)
      × (t.ws_ref ≡ none)
      × (t.wire
          ≡ (s.wire ++ send_close n ∷ close n ∷ []) ++ connect s.next_socket s.stack_name ∷ [])
      × (unmount t ≡ t)
unfolding click_stream_button on_close unmount
on_close_stale s n h w ready = rw (h, w, ready) (refl, refl, refl, refl)
