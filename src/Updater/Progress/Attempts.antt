-- ===== src/Updater/Progress/Attempts.antt =====
-- The broadcaster over a second attempt, whose history starts afresh.
use pv_inverter_master.Base.{
  ℕ, suc, ◌+◌, ◌≡◌, refl, ap, ◌∙◌, ◌≤◌, String, Bool, List, [], ◌∷◌, arith, All, length,
}
use pv_inverter_master.Json.{Fields}
use pv_inverter_master.Updater.Status.{load_status}
use pv_inverter_master.Updater.Progress.{
  ProgressBroadcaster, add_entry, new_entries, in_order, emit, emit_new_entries, poll_once, new,
}
use pv_inverter_master.Updater.Progress.Once.{
  Unnumbered, last_of, sequence_is_index, earlier_is_old, Poll, watch, Grows, watched,
}

-- The polls read histories without sequences of at most `n` entries.
abbrev pub Short : ℕ → List Poll → Type 0
Short n [] = Unit
Short n (q ∷ qs) =
    (length (load_status q.file).history ≤ n)
    × All Unnumbered (load_status q.file).history
    × Short n qs

new_entries-old :
    (n i : ℕ) (es : List Fields)
    → i + length es ≤ n
    → All Unnumbered es
    → new_entries (last_of n) i es ≡ []
unfolding new_entries
new_entries-old n i [] h u = refl
new_entries-old n i (e ∷ es) h u =
    ap (λ o. add_entry (last_of n) o e (new_entries (last_of n) (suc i) es))
      (sequence_is_index e i u.0)
    ∙ rw (earlier_is_old n i (omega (arith, h)))
        (new_entries-old n (suc i) es (omega (arith, h)) u.1)

nothing_new :
    (n : ℕ) (alive : String → Bool) (es : List Fields) (b : ProgressBroadcaster)
    → b.last_sequence ≡ last_of n
    → length es ≤ n
    → All Unnumbered es
    → emit_new_entries alive es b ≡ (b, [])
unfolding emit_new_entries in_order emit
nothing_new n alive es b e h u =
    ap (λ xs. emit alive (in_order xs) b)
      (ap (λ z. new_entries z 0 es) e ∙ new_entries-old n 0 es (omega (arith, h)) u)

silent_then :
    (n : ℕ) (qs : List Poll) (b : ProgressBroadcaster)
    → b.last_sequence ≡ last_of n
    → Short n qs
    → watch qs b ≡ (b, [])
unfolding watch poll_once
silent_then n [] b e s = refl
silent_then n (q ∷ qs) b e s =
    rw (nothing_new n q.alive (load_status q.file).history b e s.0 s.1)
      (rw (silent_then n qs b e s.2) refl)

-- After it has sent a history, the broadcaster sends nothing of a history that starts afresh, as that of
-- a second attempt does, while it is no longer than the first.
pub second_attempt_silent :
    (qs later : List Poll) (h : List Fields) (clients : List String)
    → Grows [] qs h
    → Short (length h) later
    → let b = (watch qs (new clients)).0 in watch later b ≡ (b, [])
second_attempt_silent qs later h clients g s =
    silent_then (length h) later (watch qs (new clients)).0
      (watched qs [] h (new clients) g refl tt).3 s
