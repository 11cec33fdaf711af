-- ===== src/Tab/Partition.antt =====
-- Which chats a tab shows, and how the tabs divide them.
use beeper_tui.Base.{ℕ, ◌+◌, ◌≡◌, ◌⊎◌, refl, true, false, List, [], ◌∷◌, arith, length, keep}
use beeper_tui.Api.{Chat}
use beeper_tui.Tab.{Tab, inbox, low_priority, archive, includes, count}

-- The three tabs that between them show every chat exactly once.
pub inbox_or_low_or_archive :
    (c : Chat)
    → ((includes inbox c ≡ true) × (includes low_priority c ≡ false) × (includes archive c ≡ false))
      ⊎ ((includes inbox c ≡ false)
          × (includes low_priority c ≡ true)
          × (includes archive c ≡ false))
      ⊎ ((includes inbox c ≡ false)
          × (includes low_priority c ≡ false)
          × (includes archive c ≡ true))
unfolding includes
inbox_or_low_or_archive c = ground arith

archived_only : (t : Tab) (c : Chat) → c.archived ≡ true → includes t c ≡ true → t ≡ archive
unfolding includes
archived_only t c h k = ground arith

count-eq-length-keep : (t : Tab) (cs : List Chat) → count t cs ≡ length (keep (includes t) cs)
unfolding count
count-eq-length-keep t [] = refl
count-eq-length-keep t (c ∷ cs) = ground (arith, count-eq-length-keep t cs)

one_of_three :
    (c : Chat) (cs : List Chat) (n : ℕ)
    → count inbox cs + count low_priority cs + count archive cs ≡ n
    → count inbox (c ∷ cs) + count low_priority (c ∷ cs) + count archive (c ∷ cs) ≡ n + 1
unfolding count
one_of_three c cs n h = ground (arith, inbox_or_low_or_archive c)

-- The badges of Inbox, Low Priority and Archive add up to the number of chats.
pub tabs_partition :
    (cs : List Chat) → count inbox cs + count low_priority cs + count archive cs ≡ length cs
tabs_partition [] = unfold count in refl
tabs_partition (c ∷ cs) = omega (arith, one_of_three c cs (length cs) (tabs_partition cs))
