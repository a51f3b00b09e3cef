-- ===== src/Updater/Progress/Once.antt =====
-- What the broadcaster sends over a sequence of polls.
use pv_inverter_master.Base.{
  ℕ, zero, suc, ◌+◌, ◌≡◌, refl, sym, ap, ◌∙◌, ◌≤◌, String, Bool, true, false, some, List, [], ◌∷◌,
  ◌++◌, arith, ℤ, pos, negsuc, ltb_ℤ, All, All-++, length, length-append,
}
use pv_inverter_master.Json.{null, Fields, get}
use pv_inverter_master.Updater.Status.{FileText, load_status}
use pv_inverter_master.Updater.Progress.{
  ProgressBroadcaster, sequence_of, entry_sequence, add_entry, new_entries, place, in_order,
  envelope, Sent, reached, emit, emit_new_entries, poll_once, new,
}

-- The entry has no sequence of its own, as the status writer leaves it.
abbrev pub Unnumbered : Fields → Type 0
Unnumbered fs = get "sequence" fs ≡ null

-- The sequence of the last of `n` entries.
abbrev pub last_of : ℕ → ℤ
last_of zero = negsuc 0
last_of (suc n) = pos n

abbrev pub enumerate : ℕ → List Fields → List (ℤ × Fields)
enumerate i [] = []
enumerate i (e ∷ es) = (pos i, e) ∷ enumerate (suc i) es

later_is_new : (n i : ℕ) → n ≤ i → ltb_ℤ (last_of n) (pos i) ≡ true
later_is_new zero i h = ground arith
later_is_new (suc n) i h = ground arith

pub earlier_is_old : (n i : ℕ) → suc i ≤ n → ltb_ℤ (last_of n) (pos i) ≡ false
earlier_is_old zero i h = absurd (omega (arith, h))
earlier_is_old (suc n) i h = ground arith

pub sequence_is_index : (e : Fields) (i : ℕ) → Unnumbered e → entry_sequence e i ≡ some (pos i)
unfolding entry_sequence sequence_of
sequence_is_index e i u = rw u refl

new_entries-later :
    (n i : ℕ) (es : List Fields)
    → n ≤ i
    → All Unnumbered es
    → new_entries (last_of n) i es ≡ enumerate i es
unfolding new_entries
new_entries-later n i [] h u = refl
new_entries-later n i (e ∷ es) h u =
    ap (λ o. add_entry (last_of n) o e (new_entries (last_of n) (suc i) es))
      (sequence_is_index e i u.0)
    ∙ rw (later_is_new n i h)
        (ap (λ xs. (pos i, e) ∷ xs) (new_entries-later n (suc i) es (omega (arith, h)) u.1))

new_entries-append :
    (n i : ℕ) (old more : List Fields)
    → n ≡ i + length old
    → All Unnumbered old
    → All Unnumbered more
    → new_entries (last_of n) i (old ++ more) ≡ enumerate n more
unfolding new_entries
new_entries-append n i [] more e u v =
    let here : n ≡ i = omega (arith, e) in
    new_entries-later n i more (omega (arith, e)) v ∙ ap (λ k. enumerate k more) (sym here)
new_entries-append n i (x ∷ old) more e u v =
    ap (λ o. add_entry (last_of n) o x (new_entries (last_of n) (suc i) (old ++ more)))
      (sequence_is_index x i u.0)
    ∙ rw (earlier_is_old n i (omega (arith, e)))
        (new_entries-append n (suc i) old more (omega (arith, e)) u.1 v)

in_order-enumerate : (i : ℕ) (es : List Fields) → in_order (enumerate i es) ≡ enumerate i es
unfolding in_order place
in_order-enumerate i [] = refl
in_order-enumerate i (e ∷ []) = refl
in_order-enumerate i (e ∷ f ∷ es) =
    let behind : ltb_ℤ (pos (suc i)) (pos i) ≡ false = ground arith in
    ap (λ xs. place (pos i, e) xs) (in_order-enumerate (suc i) (f ∷ es)) ∙ rw behind refl

-- The payloads of some entries, in their order.
abbrev pub payloads : ℕ → List Fields → List Fields
payloads i [] = []
payloads i (e ∷ es) = envelope (pos i) e ∷ payloads (suc i) es

abbrev pub payloads_of : List Sent → List Fields
payloads_of [] = []
payloads_of (s ∷ ss) = s.payload ∷ payloads_of ss

emit-enumerate :
    (alive : String → Bool) (i : ℕ) (es : List Fields) (b : ProgressBroadcaster)
    → b.last_sequence ≡ last_of i
    → let (b', sent) = emit alive (enumerate i es) b in
      (payloads_of sent ≡ payloads i es) × (b'.last_sequence ≡ last_of (i + length es))
unfolding emit
emit-enumerate alive i [] b h = let e : i ≡ i + 0 = omega arith in (refl, h ∙ ap last_of e)
emit-enumerate alive i (e ∷ es) b h =
    let rest =
      emit-enumerate alive (suc i) es
        (record { last_sequence = pos i; clients = reached alive b.clients }) refl in
    let k : suc i + length es ≡ i + suc (length es) = omega arith in
    (ap (λ xs. envelope (pos i) e ∷ xs) rest.0, rest.1 ∙ ap last_of k)

-- One poll of a history that has grown.
grown :
    (alive : String → Bool) (old more : List Fields) (b : ProgressBroadcaster)
    → b.last_sequence ≡ last_of (length old)
    → All Unnumbered old
    → All Unnumbered more
    → let (b', sent) = emit_new_entries alive (old ++ more) b in
      (payloads_of sent ≡ payloads (length old) more)
      × (b'.last_sequence ≡ last_of (length old + length more))
unfolding emit_new_entries
grown alive old more b h u v =
    let n : ℕ = length old in
    let fresh : in_order (new_entries b.last_sequence 0 (old ++ more)) ≡ enumerate n more =
      ap (λ z. in_order (new_entries z 0 (old ++ more))) h
      ∙ ap in_order (new_entries-append n 0 old more (omega arith) u v)
      ∙ in_order-enumerate n more in
    rw fresh (emit-enumerate alive n more b h)

-- A poll, with the clients that can be reached during it.
pub record Poll : Type 0 where
  pub alive : String → Bool
  pub file : FileText

unfoldable pub watch : List Poll → ProgressBroadcaster → ProgressBroadcaster × List Sent
watch [] b = (b, [])
watch (q ∷ qs) b =
    let (b', sent, phase) = poll_once q.alive q.file b in
    let (c, others) = watch qs b' in (c, sent ++ others)

-- The files of the polls hold a history that grows from `h` to `h'`, by entries without a sequence.
abbrev pub Grows : List Fields → List Poll → List Fields → Type 0
Grows h [] h' = h ≡ h'
Grows h (q ∷ qs) h' =
    (more : List Fields) × ((load_status q.file).history ≡ h ++ more)
    × All Unnumbered more
    × Grows (h ++ more) qs h'

payloads-append :
    (i : ℕ) (es fs : List Fields)
    → payloads i (es ++ fs) ≡ payloads i es ++ payloads (i + length es) fs
payloads-append i [] fs = let e : i ≡ i + 0 = omega arith in ap (λ k. payloads k fs) e
payloads-append i (e ∷ es) fs =
    let k : suc i + length es ≡ i + suc (length es) = omega arith in
    ap (λ xs. envelope (pos i) e ∷ xs)
      (payloads-append (suc i) es fs ∙ ap (λ n. payloads (suc i) es ++ payloads n fs) k)

payloads_of-append : (ss ts : List Sent) → payloads_of (ss ++ ts) ≡ payloads_of ss ++ payloads_of ts
payloads_of-append [] ts = refl
payloads_of-append (s ∷ ss) ts = ap (λ xs. s.payload ∷ xs) (payloads_of-append ss ts)

append_assoc : (xs ys zs : List Fields) → (xs ++ ys) ++ zs ≡ xs ++ (ys ++ zs)
append_assoc [] ys zs = refl
append_assoc (x ∷ xs) ys zs = ap (λ ws. x ∷ ws) (append_assoc xs ys zs)

append_nil : (xs : List Fields) → xs ++ [] ≡ xs
append_nil [] = refl
append_nil (x ∷ xs) = ap (λ ws. x ∷ ws) (append_nil xs)

polled :
    (q : Poll) (old more : List Fields) (b : ProgressBroadcaster)
    → (load_status q.file).history ≡ old ++ more
    → b.last_sequence ≡ last_of (length old)
    → All Unnumbered old
    → All Unnumbered more
    → let r = poll_once q.alive q.file b in
      (payloads_of r.1 ≡ payloads (length old) more)
      × (r.0.last_sequence ≡ last_of (length (old ++ more)))
unfolding poll_once
polled q old more b e h u v =
    let k : length old + length more ≡ length (old ++ more) = sym (length-append old more) in
    rw e (let g = grown q.alive old more b h u v in (g.0, g.1 ∙ ap last_of k))

pub watched :
    (qs : List Poll) (h h' : List Fields) (b : ProgressBroadcaster)
    → Grows h qs h'
    → b.last_sequence ≡ last_of (length h)
    → All Unnumbered h
    → let (c, sent) = watch qs b in
      (rest : List Fields) × (h ++ rest ≡ h')
      × (payloads_of sent ≡ payloads (length h) rest)
      × (c.last_sequence ≡ last_of (length h'))
unfolding watch
watched [] h h' b g e u = ([], append_nil h ∙ g, refl, e ∙ ap (λ x. last_of (length x)) g)
watched (q ∷ qs) h h' b (more, read, v, g) e u =
    let here = polled q h more b read e u v in
    let after = poll_once q.alive q.file b in
    let (rest, whole, sent, last) =
      watched qs (h ++ more) h' after.0 g here.1 (All-++ Unnumbered h more u v) in
    (
      more ++ rest,
      sym (append_assoc h more rest) ∙ whole,
      payloads_of-append after.1 (watch qs after.0).1
          ∙ ap (λ xs. xs ++ payloads_of (watch qs after.0).1) here.0
          ∙ ap (λ xs. payloads (length h) more ++ xs) sent
          ∙ ap (λ n. payloads (length h) more ++ payloads n rest) (length-append h more)
          ∙ sym (payloads-append (length h) more rest),
      last,
    )

-- A new broadcaster that polls a growing history without sequences sends each of its entries exactly
-- once, in the order of the history and numbered by its place there, however the polls cut it
-- and whichever clients are reached.
pub watch_sends_once :
    (qs : List Poll) (h : List Fields) (clients : List String)
    → Grows [] qs h
    → payloads_of (watch qs (new clients)).1 ≡ payloads 0 h
watch_sends_once qs h clients g =
    let w = watched qs [] h (new clients) g refl tt in w.2 ∙ ap (λ es. payloads 0 es) w.1
