-- ===== src/Bot/Sessions/Dialog.antt =====
-- CompleteLookup and the session that waits.
use price_scount.Base.{ℕ, String, true, false, ◌&&◌, some, ◌==◌, ◌≡◌, str_eq, arith}
use price_scount.Bot.Sessions.{Session, Sessions, is_waiting_lookup, get, complete_lookup}

-- The result of a lookup that does not itself wait reaches a session only if that waits for this
-- lookup, keeps the page of the list, touches no other chat, and is refused when it comes again.
pub complete_lookup-once :
    (chat : ℕ) (id : String) (result : Session) (m : Sessions) (s : Session)
    → m chat ≡ some s
    → is_waiting_lookup result.step ≡ false
    → ((complete_lookup chat id result m).0 ≡ (is_waiting_lookup s.step && str_eq s.lookup_id id))
      × ((complete_lookup chat id result m).0 ≡ true
          → get (complete_lookup chat id result m).1 chat ≡ record result { page = s.page })
      × ((c : ℕ) → (c == chat) ≡ false → get (complete_lookup chat id result m).1 c ≡ get m c)
      × ((complete_lookup chat id result m).0 ≡ true
          → (complete_lookup chat id result (complete_lookup chat id result m).1).0 ≡ false)
unfolding complete_lookup get
complete_lookup-once chat id result m s found moves = (
  ground (arith, found),
  λ e. ground (arith, found, e),
  λ c n. ground (arith, found, n),
  λ e. ground (arith, found, e, moves),
)
