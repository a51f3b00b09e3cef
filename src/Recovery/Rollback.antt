-- ===== src/Recovery/Rollback.antt =====
-- When a boot rolls back, and what it leaves.
use mathlib.Core.Path.{subst}
use pv_inverter_master.Base.{
  ◌≡◌, refl, sym, ap, ◌∙◌, String, Bool, true, false, none, some, inl, inr, if◌then◌else◌,
  Bool-cases,
}
use pv_inverter_master.Json.{Value, get}
use pv_inverter_master.Updater.Status.{missing}
use pv_inverter_master.Recovery.{
  PendingMarker, Loaded, nothing, crashed, marker, is_absolute, is_number, read_marker, load_value,
  load_pending_marker, write_pending_marker, Disk, Boot, Outcome, no_pending, updater_active,
  stale_pending_cleaned, rolled_back, clear_pending_marker, atomic_symlink_flip, is_stale, flipped,
  roll_back, recover, recover_if_needed,
}

-- A rollback is due: a marker is loaded, no updater is at work, no boot succeeded since, the release is
-- there, and the flip works.
abbrev Due : Boot → Disk → PendingMarker → Type 0
Due b d m =
    (load_pending_marker d.pending ≡ marker m)
    × (b.updater_active ≡ false)
    × (is_stale b m ≡ false)
    × (b.is_dir m.previous_release ≡ true)
    × (b.flip_works ≡ true)

-- The outcome is a rollback to a release that was due, or the symlink stays.
abbrev pub Explained : Boot → Disk → Outcome → Disk → Type 0
Explained b d rolled_back d' = (m : PendingMarker) × Due b d m × (d'.link ≡ m.previous_release)
Explained b d o d' = d'.link ≡ d.link

cleared-link : (b : Boot) (d : Disk) → (clear_pending_marker b d).link ≡ d.link
unfolding clear_pending_marker
cleared-link b d = elim (Bool-cases b.unlink_works) [
  | inl works ↦ rw works refl
  | inr fails ↦ rw fails refl
]

abbrev linked : PendingMarker → Disk → Disk
linked m d = record d { link = m.previous_release }

due_roll_back :
    (b : Boot) (m : PendingMarker) (d : Disk)
    → b.is_dir m.previous_release ≡ true
    → b.flip_works ≡ true
    → roll_back b m d ≡ (rolled_back, clear_pending_marker b (linked m d))
unfolding roll_back flipped atomic_symlink_flip
due_roll_back b m d there works =
    rw there (ap (λ f. flipped b (if f then some (linked m d) else none) d) works)

roll_back-Explained :
    (b : Boot) (m : PendingMarker) (d : Disk)
    → load_pending_marker d.pending ≡ marker m
    → b.updater_active ≡ false
    → is_stale b m ≡ false
    → let (o, d') = roll_back b m d in Explained b d o d'
unfolding roll_back flipped atomic_symlink_flip
roll_back-Explained b m d e idle fresh = elim (Bool-cases (b.is_dir m.previous_release)) [
  | inr gone ↦ rw gone refl
  | inl there ↦ elim (Bool-cases b.flip_works) [
    | inr broken ↦ rw (there, broken) refl
    | inl works ↦
        subst (λ x. Explained b d x.0 x.1) (sym (due_roll_back b m d there works))
          (m, (e, idle, fresh, there, works), cleared-link b (linked m d))
  ]
]

recover-Explained :
    (b : Boot) (l : Loaded) (d : Disk)
    → load_pending_marker d.pending ≡ l
    → let (o, d') = recover b l d in Explained b d o d'
unfolding recover
recover-Explained b nothing d e = refl
recover-Explained b crashed d e = refl
recover-Explained b (marker m) d e = branch b.updater_active refl
  where
    branch :
        (active : Bool)
        → b.updater_active ≡ active
        → let (o, d') =
            if active
            then (updater_active, d)
            else if is_stale b m
            then (stale_pending_cleaned, clear_pending_marker b d)
            else roll_back b m d in
          Explained b d o d'
    branch true busy = refl
    branch false idle = elim (Bool-cases (is_stale b m)) [
      | inl stale ↦ rw stale (cleared-link b d)
      | inr fresh ↦ rw fresh (roll_back-Explained b m d e idle fresh)
    ]

-- At every boot the symlink stays as it is, unless the outcome is a rollback: then a marker was loaded,
-- the updater is not at work, no boot succeeded since the marker was made, its previous release
-- is a directory, the flip works, and the symlink points to that release.
pub recover_if_needed-Explained :
    (b : Boot) (d : Disk) → let (o, d') = recover_if_needed b d in Explained b d o d'
unfolding recover_if_needed
recover_if_needed-Explained b d = recover-Explained b (load_pending_marker d.pending) d refl

rolls_back :
    (b : Boot) (d : Disk) (m : PendingMarker)
    → Due b d m
    → recover_if_needed b d ≡ (rolled_back, clear_pending_marker b (linked m d))
unfolding recover_if_needed recover
rolls_back b d m due =
    ap (λ l. recover b l d) due.0
    ∙ ap
        (λ a.
          if a
          then (updater_active, d)
          else if is_stale b m
          then (stale_pending_cleaned, clear_pending_marker b d)
          else roll_back b m d)
        due.1
    ∙ ap (λ a. if a then (stale_pending_cleaned, clear_pending_marker b d) else roll_back b m d)
        due.2
    ∙ due_roll_back b m d due.3 due.4

cleared :
    (b : Boot) (d : Disk)
    → b.unlink_works ≡ true
    → clear_pending_marker b d ≡ record d { pending = missing }
unfolding clear_pending_marker
cleared b d h = rw h refl

left : (b : Boot) (d : Disk) → b.unlink_works ≡ false → clear_pending_marker b d ≡ d
unfolding clear_pending_marker
left b d h = rw h refl

abbrev pub written : String → String → Value → PendingMarker
written previous target created = record {
  previous_release = previous;
  target_release = target;
  created_at = created;
}

-- The marker that an update attempt writes is loaded as it was written.
written_loads :
    (previous target reason : String) (created : Value)
    → is_absolute previous ≡ true
    → is_absolute target ≡ true
    → is_number created ≡ true
    → load_pending_marker (write_pending_marker previous target created reason)
      ≡ marker (written previous target created)
unfolding load_pending_marker write_pending_marker load_value read_marker get
written_loads previous target reason created p t n = rw (p, t, n) refl

abbrev pub interrupted : String → String → String → String → Value → Disk
interrupted link previous target reason created = record {
  link = link;
  pending = write_pending_marker previous target created reason;
}

abbrev pub without_marker : String → Disk
without_marker link = record { link = link; pending = missing }

-- An update attempt wrote its marker, for absolute paths, and the machine went down. If the next boot
-- finds no updater at work, no boot that succeeded since, and the previous release, and its flip
-- and unlinking work, the symlink is back at that release and the marker is gone; and whatever a
-- later boot finds, it changes nothing.
pub interrupted_update_recovers :
    (b later : Boot) (link previous target reason : String) (created : Value)
    → is_absolute previous ≡ true
    → is_absolute target ≡ true
    → is_number created ≡ true
    → b.updater_active ≡ false
    → is_stale b (written previous target created) ≡ false
    → b.is_dir previous ≡ true
    → b.flip_works ≡ true
    → b.unlink_works ≡ true
    → let d' = without_marker previous in
      (recover_if_needed b (interrupted link previous target reason created) ≡ (rolled_back, d'))
      × (recover_if_needed later d' ≡ (no_pending, d'))
unfolding recover_if_needed load_pending_marker recover
interrupted_update_recovers b later link previous target reason created p t n idle fresh there works
      unlinks =
    let d : Disk = interrupted link previous target reason created in
    let m : PendingMarker = written previous target created in
    (
      rolls_back b d m
            (written_loads previous target reason created p t n, idle, fresh, there, works)
          ∙ ap (λ x. (rolled_back, x)) (cleared b (linked m d) unlinks),
      refl,
    )

-- A boot that rolls back but cannot unlink the marker leaves it, and the next boot that finds the same
-- rolls back again, to the same release.
pub failed_unlink_repeats :
    (b : Boot) (link previous target reason : String) (created : Value)
    → is_absolute previous ≡ true
    → is_absolute target ≡ true
    → is_number created ≡ true
    → b.updater_active ≡ false
    → is_stale b (written previous target created) ≡ false
    → b.is_dir previous ≡ true
    → b.flip_works ≡ true
    → b.unlink_works ≡ false
    → let d' = interrupted previous previous target reason created in
      (recover_if_needed b (interrupted link previous target reason created) ≡ (rolled_back, d'))
      × (recover_if_needed b d' ≡ (rolled_back, d'))
failed_unlink_repeats b link previous target reason created p t n idle fresh there works fails =
    let again = λ (at : String).
      let d : Disk = interrupted at previous target reason created in
      let m : PendingMarker = written previous target created in
      rolls_back b d m
        (written_loads previous target reason created p t n, idle, fresh, there, works)
      ∙ ap (λ x. (rolled_back, x)) (left b (linked m d) fails) in
    (again link, again previous)
