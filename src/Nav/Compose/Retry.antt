-- ===== src/Nav/Compose/Retry.antt =====
-- internal/ui/nav.go and messages.go: a message that could not be sent, and sending it again.
use beeper_tui.Base.{
  ◌≡◌, refl, ap, ◌∙◌, ℕ, suc, ◌+◌, pos, false, Bool-cases, inl, inr, ◌==◌, List, [], ◌∷◌, ◌++◌,
  some, arith, ◌&&◌, get_elem?, length, length-append, sub_ℕ, if◌then◌else◌, lookup, eqb, ltb,
}
use beeper_tui.Platform.{Platform}
use beeper_tui.Api.{Message}
use beeper_tui.Model.{Model, Cmd, FailedSend, send_message, send_attachments}
use beeper_tui.Media.{cursor_message}
use beeper_tui.Messages.{retry_failed_send, resend}
use beeper_tui.Nav.Window.{clamp_index}
use beeper_tui.Nav.Frame.{messages-clamp_window}
use beeper_tui.Nav.Bounds.{clamp_window-cursor}
use beeper_tui.Nav.Cursor.{jump_bottom}
use beeper_tui.Nav.Compose.{send_input, optimistic, local_id, sent}

get_elem?-snoc {ℓ} :
    {A : Type ℓ} (xs : List A) (a : A) → get_elem? (xs ++ a ∷ []) (length xs) ≡ some a
get_elem?-snoc [] a = refl
get_elem?-snoc (x ∷ xs) a = get_elem?-snoc xs a

last_of : (n : ℕ) → clamp_index (sub_ℕ (n + 1) 1) (n + 1) ≡ n
last_of n = ground arith

module _ ⦃platform : Platform⦄ where
  -- The request of a message that has just been written.
  abbrev pub request : Model → Cmd
  request m =
      if ltb 0 (length m.compose_atts)
      then send_attachments m.current_chat_id (local_id (suc m.local_seq)) m.input m.compose_atts
      else send_message m.current_chat_id (local_id (suc m.local_seq)) m.input

  -- Something is written.
  abbrev pub IsWritten : Model → Type 0
  IsWritten m = (m.input == "" && eqb (length m.compose_atts) 0) ≡ false

  pub sends :
      (now : ℕ) (m : Model)
      → IsWritten m
      → send_input now m ≡ (jump_bottom (sent now m), request m ∷ [])
  unfolding send_input
  sends now m h = elim (Bool-cases (ltb 0 (length m.compose_atts))) [
    | inl atts ↦ rw (h, atts) refl
    | inr text ↦ rw (h, text) refl
  ]

  jumps :
      (now : ℕ) (m : Model)
      → (jump_bottom (sent now m)).messages ≡ m.messages ++ optimistic now m ∷ []
  unfolding jump_bottom
  jumps now m = messages-clamp_window _

  lands : (now : ℕ) (m : Model) → (jump_bottom (sent now m)).msg_selected ≡ pos (length m.messages)
  unfolding jump_bottom
  lands now m =
      let n = length m.messages in
      let one = length-append m.messages (optimistic now m ∷ []) in
      clamp_window-cursor _ refl (omega (arith, one))
      ∙ ap (λ k. pos (clamp_index (sub_ℕ k 1) k)) one
      ∙ ap pos (last_of n)

  pub on_it :
      (now : ℕ) (m : Model) → cursor_message (jump_bottom (sent now m)) ≡ some (optimistic now m)
  unfolding cursor_message
  on_it now m = rw (lands now m, jumps now m) (get_elem?-snoc m.messages (optimistic now m))

  -- After a send the new message is the last of the conversation, and the cursor is on it.
  pub send_input-cursor :
      (now : ℕ) (m : Model)
      → IsWritten m
      → ((send_input now m).0.messages ≡ m.messages ++ optimistic now m ∷ [])
        × (cursor_message (send_input now m).0 ≡ some (optimistic now m))
  send_input-cursor now m h = rw (sends now m h) (jumps now m, on_it now m)

  pub retries :
      (m : Model) (msg : Message) (f : FailedSend)
      → cursor_message m ≡ some msg
      → lookup msg.id m.failed_sends ≡ some f
      → (retry_failed_send m).1 ≡ resend msg f ∷ []
  unfolding retry_failed_send
  retries m msg f e k = rw (retry_failed_send, e, k) refl
