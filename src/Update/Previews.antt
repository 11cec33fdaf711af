-- ===== src/Update/Previews.antt =====
-- internal/ui/media.go and update.go: each preview is loaded once, whatever its load returns.
use beeper_tui.Base.{◌≡◌, refl, ◌∙◌, ℕ, String, List, [], ◌∷◌, insert}
use beeper_tui.Platform.{Platform}
use beeper_tui.Model.{Model, MediaPreview}
use beeper_tui.Media.{load_previews}
use beeper_tui.Media.Once.{Grows, Grows-insert, load_previews-silent}
use beeper_tui.Nav.Frame.{messages-clamp_window, width-clamp_window, previews-clamp_window}
use beeper_tui.Update.{media_preview, update}

module _ ⦃platform : Platform⦄ where
  -- The results of some loads, as they arrive.
  unfoldable pub receive : ℕ → List (String × MediaPreview) → Model → Model
  receive now [] m = m
  receive now ((key, p) ∷ rs) m = receive now rs (update now (media_preview key p) m).0

  -- The same conversation at the same width, with no preview forgotten.
  IsLater : Model → Model → Type 0
  IsLater m k =
      (k.messages ≡ m.messages) × (k.width ≡ m.width) × Grows m.media_previews k.media_previews

  update-IsLater :
      (now : ℕ) (key : String) (p : MediaPreview) (m k : Model)
      → IsLater m k
      → IsLater m (update now (media_preview key p) k).0
  unfolding IsLater update
  update-IsLater now key p m k (same, wide, grows) =
      let k' = record k { media_previews = insert key p k.media_previews } in
      (
        messages-clamp_window k' ∙ same,
        width-clamp_window k' ∙ wide,
        λ name. λ known.
            rw (previews-clamp_window k')
              (Grows-insert k.media_previews key p name (grows name known)),
      )

  receive-IsLater :
      (now : ℕ) (rs : List (String × MediaPreview)) (m k : Model)
      → IsLater m k
      → IsLater m (receive now rs k)
  unfolding receive
  receive-IsLater now [] m k h = h
  receive-IsLater now ((key, p) ∷ rs) m k h =
      receive-IsLater now rs m (update now (media_preview key p) k).0
        (update-IsLater now key p m k h)

  -- A preview is loaded once: after the previews of a conversation were asked for, and whatever
  -- loads then succeed or fail, in any order, asking again at the same width starts no load and leaves
  -- the state as it is, so that a preview that is in flight, loaded or failed is not asked for again.
  pub load_previews_once :
      (now : ℕ) (rs : List (String × MediaPreview)) (m : Model)
      → load_previews (receive now rs (load_previews m).0)
        ≡ (receive now rs (load_previews m).0, [])
  unfolding load_previews IsLater
  load_previews_once now rs m =
      let (same, wide, grows) =
        receive-IsLater now rs (load_previews m).0 (load_previews m).0
          (refl, refl, λ name. λ known. known) in
      load_previews-silent m (receive now rs (load_previews m).0) same wide grows
