-- ===== src/Events/Connection.antt =====
-- internal/ui/wsevents.go: the state of the connection over a sequence of events.
use beeper_tui.Base.{◌≡◌, refl, ap, true, [], ◌∷◌, Bool-cases, inl, inr, ◌==◌, none, if◌then◌else◌}
use beeper_tui.Platform.{Platform}
use beeper_tui.Model.{Model, connected, disconnected, load_chats, load_messages}
use beeper_tui.Events.{
  Event, ev_connected, ev_disconnected, apply_ws_event, on_connected, dispatch,
  reconcile_after_reconnect,
}

module _ ⦃platform : Platform⦄ where
  connect : (e : Event) (m : Model) → e.type ≡ ev_connected → apply_ws_event e m ≡ on_connected m
  unfolding apply_ws_event
  connect e m t = ap (λ type. dispatch type e m) t

  lose :
      (e : Event) (m : Model)
      → e.type ≡ ev_disconnected
      → apply_ws_event e m ≡ (record m { conn = disconnected; conn_err = e.err }, [])
  unfolding apply_ws_event
  lose e m t = ap (λ type. dispatch type e m) t

  -- After a first connection the state remembers it, and the open conversation is the same.
  after_first :
      (m : Model)
      → ((on_connected m).0.ever_connected ≡ true)
        × ((on_connected m).0.current_chat_id ≡ m.current_chat_id)
  unfolding reconcile_after_reconnect
  after_first m = elim (Bool-cases m.ever_connected) [
    | inl again ↦ rw again (refl, refl)
    | inr first ↦ rw first (refl, refl)
  ]

  regained :
      (down again : Event) (k : Model)
      → down.type ≡ ev_disconnected
      → again.type ≡ ev_connected
      → k.ever_connected ≡ true
      → apply_ws_event again (apply_ws_event down k).0
        ≡ reconcile_after_reconnect (record k { conn = connected; conn_err = none })
  regained down again k d a ever = rw (lose down k d, connect again _ a, ever) refl

  -- A connection that is lost and found again, after it was up once, is reported as connected without
  -- an error, and the chats and the open conversation are fetched again with no preview kept.
  pub reconnect_reconciles :
      (up down again : Event) (m : Model)
      → up.type ≡ ev_connected
      → down.type ≡ ev_disconnected
      → again.type ≡ ev_connected
      → ((apply_ws_event again (apply_ws_event down (apply_ws_event up m).0).0).0.conn ≡ connected)
        × ((apply_ws_event again (apply_ws_event down (apply_ws_event up m).0).0).0.conn_err ≡ none)
        × ((apply_ws_event again (apply_ws_event down (apply_ws_event up m).0).0).0.preview_cache
            ≡ [])
        × ((apply_ws_event again (apply_ws_event down (apply_ws_event up m).0).0).1
            ≡ load_chats
              ∷ (if m.current_chat_id == "" then [] else load_messages m.current_chat_id ∷ []))
  unfolding reconcile_after_reconnect
  reconnect_reconciles up down again m u d a =
      let k = (apply_ws_event up m).0 in
      let (ever, same) = after_first m in
      let ever' : k.ever_connected ≡ true = rw (connect up m u) ever in
      let same' : k.current_chat_id ≡ m.current_chat_id = rw (connect up m u) same in
      rw (regained down again k d a ever', same') (refl, refl, refl, refl)
