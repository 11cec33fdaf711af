-- ===== src/Assistant/Session/Transcript.antt =====
-- internal/ui/chat.go: what the events of a whole session leave in the state.
use beeper_tui.Base.{
  ◌≡◌, refl, ap, ◌∙◌, ℕ, Bool, true, false, ◌⊎◌, inl, inr, String, List, [], ◌∷◌, ◌++◌, any, Option,
  none, some, Option-cases, if◌then◌else◌, arith,
}
use beeper_tui.Platform.{Platform}
use beeper_tui.Model.{Model, ChatTurn, Llm, ToolStep, Cmd, wait_chat_event, run_chat_session}
use beeper_tui.Assistant.Failure.{chat_server, chat_runtime_error}
use beeper_tui.Assistant.Turns.{
  ChatEvent, token, reasoning, tool_start, tool_end, done, failed, apply_chat_event, apply_kind,
  on_last, add_token, end_step, finish_step, wait_for_chat_event,
}
use beeper_tui.Assistant.Lines.{chat_clamp_follow, clamp_chat_window}
use beeper_tui.Assistant.Session.{Round, run_session}
use beeper_tui.Assistant.Session.Ends.{is_end, IsComplete}

abbrev pub is_wait : Cmd → Bool
is_wait wait_chat_event = true
is_wait _ = false

abbrev pub is_start : Cmd → Bool
is_start (run_chat_session history) = true
is_start _ = false

on_last-append :
    (f : ChatTurn → ChatTurn) (base : List ChatTurn) (t : ChatTurn)
    → on_last f (base ++ t ∷ []) ≡ base ++ f t ∷ []
unfolding on_last
on_last-append f [] t = refl
on_last-append f (x ∷ []) t = refl
on_last-append f (x ∷ y ∷ ys) t = ap (λ ts. x ∷ ts) (on_last-append f (y ∷ ys) t)

err_text-end_step : (ended : ToolStep) (t : ChatTurn) → (end_step ended t).err_text ≡ t.err_text
err_text-end_step ended t = elim (Option-cases (finish_step ended t.steps)) [
  | inl missing ↦ rw (end_step, missing) refl
  | inr (steps, found) ↦ rw (end_step, found) refl
]

-- A session is under way, and its answer is the last turn, after some others, with no failure shown.
unfoldable pub IsOpen : List ChatTurn → Option Llm → Model → Type 0
IsOpen base llm m =
    (m.chat_session ≡ true)
    × (m.llm ≡ llm)
    × (t : ChatTurn) × (m.chat_turns ≡ base ++ t ∷ [])
    × (t.err_text ≡ "")

module _ ⦃platform : Platform⦄ where
  -- The session is over: its answer is the last turn, no longer streaming, and either no failure is
  -- shown, or the failure is kept and the turn shows its text.
  abbrev pub IsOver : List ChatTurn → Option Llm → Model → Type 0
  IsOver base llm m =
      (m.chat_session ≡ false)
      × (t : ChatTurn) × (m.chat_turns ≡ base ++ t ∷ [])
      × (t.streaming ≡ false)
      × (((m.chat_err ≡ none) × (t.err_text ≡ ""))
          ⊎ ((err : String) × (m.chat_err ≡ some err)
              × (t.err_text ≡ chat_runtime_error err (chat_server llm))))

  -- The event loop over the events of the channel: each is applied while the commands of the last
  -- update wait for it.
  unfoldable pub run_events : List ChatEvent → Model × List Cmd → Model
  run_events [] (m, cmds) = m
  run_events (e ∷ es) (m, cmds) =
      let rest = run_events es (apply_chat_event e m) in if any is_wait cmds then rest else m

  -- The session that the commands start, if they do, applied to the end.
  unfoldable pub run_asked : (ℕ → Round) → Model × List Cmd → Model
  run_asked rounds (m, cmds) =
      run_events (if any is_start cmds then run_session rounds else []) (m, cmds)

  applied :
      (e : ChatEvent) (m : Model) (base : List ChatTurn) (t : ChatTurn)
      → m.chat_turns ≡ base ++ t ∷ []
      → m.chat_session ≡ true
      → apply_chat_event e m
        ≡ (chat_clamp_follow (apply_kind e m), wait_for_chat_event (apply_kind e m))
  unfolding apply_chat_event
  applied e m [] t turns s = rw (turns, s) refl
  applied e m (x ∷ xs) t turns s = rw (turns, s) refl

  -- A change of the last turn that leaves its error text alone.
  on_last-turn :
      (f : ChatTurn → ChatTurn) (base : List ChatTurn) (turns : List ChatTurn) (t : ChatTurn)
      → turns ≡ base ++ t ∷ []
      → on_last f turns ≡ base ++ f t ∷ []
  on_last-turn f base turns t e = rw e (on_last-append f base t)

  apply_kind-IsOpen :
      (e : ChatEvent) (base : List ChatTurn) (llm : Option Llm) (m : Model)
      → is_end e ≡ false
      → IsOpen base llm m
      → IsOpen base llm (apply_kind e m)
  unfolding IsOpen add_token
  apply_kind-IsOpen (token s) base llm m n (r, l, t, turns, quiet) =
      (r, l, add_token s t, on_last-turn (add_token s) base m.chat_turns t turns, quiet)
  apply_kind-IsOpen reasoning base llm m n h = h
  apply_kind-IsOpen (tool_start s) base llm m n (r, l, t, turns, quiet) = (
    r,
    l,
    _,
    on_last-turn (λ t. record t { steps = t.steps ++ s ∷ [] }) base m.chat_turns t turns,
    quiet,
  )
  apply_kind-IsOpen (tool_end s) base llm m n (r, l, t, turns, quiet) = (
    r,
    l,
    end_step s t,
    on_last-turn (end_step s) base m.chat_turns t turns,
    err_text-end_step s t ∙ quiet,
  )
  apply_kind-IsOpen done base llm m n h = absurd (ground arith)
  apply_kind-IsOpen (failed s) base llm m n h = absurd (ground arith)

  apply_kind-IsOver :
      (e : ChatEvent) (base : List ChatTurn) (llm : Option Llm) (m : Model)
      → is_end e ≡ true
      → IsOpen base llm m
      → IsOver base llm (apply_kind e m)
  unfolding IsOpen
  apply_kind-IsOver (token s) base llm m n h = absurd (ground arith)
  apply_kind-IsOver reasoning base llm m n h = absurd (ground arith)
  apply_kind-IsOver (tool_start s) base llm m n h = absurd (ground arith)
  apply_kind-IsOver (tool_end s) base llm m n h = absurd (ground arith)
  apply_kind-IsOver done base llm m n (r, l, t, turns, quiet) = (
    refl,
    record t { streaming = false },
    on_last-turn (λ t. record t { streaming = false }) base m.chat_turns t turns,
    refl,
    inl (refl, quiet),
  )
  apply_kind-IsOver (failed s) base llm m n (r, l, t, turns, quiet) = (
    refl,
    record t { streaming = false; err_text = chat_runtime_error s (chat_server m.llm) },
    on_last-turn
        (λ t. record t { streaming = false; err_text = chat_runtime_error s (chat_server m.llm) })
        base m.chat_turns t turns,
    refl,
    inr (s, refl, ap (λ llm. chat_runtime_error s (chat_server llm)) l),
  )

  follow-IsOpen :
      (base : List ChatTurn) (llm : Option Llm) (m : Model)
      → IsOpen base llm m
      → IsOpen base llm (chat_clamp_follow m)
  unfolding IsOpen chat_clamp_follow clamp_chat_window
  follow-IsOpen base llm m h = h

  follow-IsOver :
      (base : List ChatTurn) (llm : Option Llm) (m : Model)
      → IsOver base llm m
      → IsOver base llm (chat_clamp_follow m)
  unfolding chat_clamp_follow clamp_chat_window
  follow-IsOver base llm m h = h

  waits_on :
      (base : List ChatTurn) (llm : Option Llm) (m : Model)
      → IsOpen base llm m
      → any is_wait (wait_for_chat_event m) ≡ true
  unfolding IsOpen
  waits_on base llm m h = rw (h.0) refl

  -- Applying the events of a complete session to a state in which it runs, and that waits for them,
  -- ends it.
  pub run_events-IsOver :
      (es : List ChatEvent) (base : List ChatTurn) (llm : Option Llm) (m : Model) (cmds : List Cmd)
      → IsComplete es
      → IsOpen base llm m
      → any is_wait cmds ≡ true
      → IsOver base llm (run_events es (m, cmds))
  unfolding run_events IsOpen
  run_events-IsOver [] base llm m cmds c h w = absurd (ground arith)
  run_events-IsOver (e ∷ []) base llm m cmds c h w =
      rw (run_events, w, applied e m base h.2 h.3 h.0)
        (follow-IsOver base llm (apply_kind e m) (apply_kind-IsOver e base llm m c h))
  run_events-IsOver (e ∷ f ∷ es) base llm m cmds (n, c) h w =
      let opened = apply_kind-IsOpen e base llm m n h in
      let rest =
        run_events-IsOver (f ∷ es) base llm (chat_clamp_follow (apply_kind e m))
          (wait_for_chat_event (apply_kind e m)) c (follow-IsOpen base llm (apply_kind e m) opened)
          (waits_on base llm (apply_kind e m) opened) in
      rw (run_events, w, applied e m base h.2 h.3 h.0) rest

  pub run_asked-IsOver :
      (rounds : ℕ → Round) (base : List ChatTurn) (llm : Option Llm) (m : Model) (cmds : List Cmd)
      → IsComplete (run_session rounds)
      → IsOpen base llm m
      → any is_start cmds ≡ true
      → any is_wait cmds ≡ true
      → IsOver base llm (run_asked rounds (m, cmds))
  unfolding run_asked
  run_asked-IsOver rounds base llm m cmds c h start wait =
      rw (run_asked, start) (run_events-IsOver (run_session rounds) base llm m cmds c h wait)
