-- ===== src/Platform/Mac/Modifiers/Alternate.antt =====
-- A modifier key is reported pressed and released in turns (crates/platform-mac/src/keymap_capture.rs).
use mouser.Prelude.{
  ℕ, ◌+◌, ◌-◌, ◌%◌, ◌≤◌, ◌≡◌, refl, sym, ap, ◌∙◌, Bool, true, false, ◌==◌, ==_iff, List, [], ◌∷◌,
  Option, none, some, if◌then◌else◌, Bool-cases, inl, inr, arith,
}
use mouser.Platform.Mac.Keymap.{cgkeycode_to_hid_usage}
use mouser.Platform.Mac.Modifiers.{
  ModifierFlag, cgkeycode_to_modifier_flag, position, toggle_at, toggle, changed,
  flags_changed_event,
}
use mouser.Platform.Mac.Modifiers.Occurs.{
  hit, occurs, occurs-append, position-none, position-some, occurs-swap_remove, occurs_there,
}

-- What a toggle makes of the number of times that a key stands among the held ones.
abbrev flipped : ℕ → ℕ → ℕ → ℕ
flipped k j n = if k == j then 1 - n else n

abbrev AtMostOnce : List ℕ → Type 0
AtMostOnce held = (j : ℕ) → occurs j held ≤ 1

same_key : (held : List ℕ) (k j : ℕ) → (k == j) ≡ true → occurs j held ≡ occurs k held
same_key held k j e = ap (λ (x : ℕ). occurs x held) (sym ((==_iff k j).0 e))

toggle_at_lem :
    (held : List ℕ) (k : ℕ) (o : Option ℕ)
    → position held k ≡ o
    → AtMostOnce held
    → ((toggle_at held k o).1 ≡ (occurs k held == 0))
      × ((j : ℕ) → occurs j (toggle_at held k o).0 ≡ flipped k j (occurs j held))
unfolding occurs
toggle_at_lem held k none q once =
    let absent = position-none held k q in
    (
      ground (arith, absent),
      (λ j.
          (let total = occurs-append j held (k ∷ []) in
            ground (arith, absent, total, same_key held k j))),
    )
toggle_at_lem held k (some i) q once =
    let at_i = position-some held k i q in
    let present = occurs_there k held i at_i in
    (
      ground (arith, present),
      (λ j.
          (let total = occurs-swap_remove j held i k at_i in
            ground (arith, present, once k, once j, total, same_key held k j))),
    )

-- A key whose changes are reported: a modifier that has a usage.
pub record IsForwarded (k usage : ℕ) : Type 0 where
  pub flag : ModifierFlag
  pub is_modifier : cgkeycode_to_modifier_flag k ≡ some flag
  pub has_usage : cgkeycode_to_hid_usage k ≡ some usage

-- The keys held after some events, from none, and how many of the events are of a key.
unfoldable pub held_after : List ℕ → List ℕ → List ℕ
held_after held [] = held
held_after held (k ∷ ks) = held_after (flags_changed_event k held).0 ks

unfoldable pub changes_of : ℕ → List ℕ → ℕ
changes_of j [] = 0
changes_of j (k ∷ ks) = hit k j + changes_of j ks

changed-AtMostOnce :
    (k : ℕ) (held : List ℕ) (f : Option ModifierFlag) (u : Option ℕ)
    → AtMostOnce held
    → AtMostOnce (changed k held f u).0
unfolding toggle
changed-AtMostOnce k held none u h = h
changed-AtMostOnce k held (some f) none h = h
changed-AtMostOnce k held (some f) (some u) h = λ j.
    (let step = (toggle_at_lem held k (position held k) refl h).1 j in
      let before = h j in rw (step) (ground (arith, before)))

forwarded_step :
    (k usage : ℕ) (held : List ℕ)
    → IsForwarded k usage
    → AtMostOnce held
    → ((flags_changed_event k held).1 ≡ some (usage, occurs k held == 0))
      × ((j : ℕ) → occurs j (flags_changed_event k held).0 ≡ flipped k j (occurs j held))
unfolding flags_changed_event toggle
forwarded_step k usage held fw h =
    let (down, count) = toggle_at_lem held k (position held k) refl h in
    rw (fw.is_modifier, fw.has_usage) (ap (λ (b : Bool). some (usage, b)) down, count)

-- Another key, forwarded or not, leaves the count alone.
other_step :
    (k j : ℕ) (held : List ℕ) (f : Option ModifierFlag) (u : Option ℕ)
    → (k == j) ≡ false
    → AtMostOnce held
    → occurs j (changed k held f u).0 ≡ occurs j held
unfolding toggle
other_step k j held none u e h = refl
other_step k j held (some f) none e h = refl
other_step k j held (some f) (some u) e h =
    let step = (toggle_at_lem held k (position held k) refl h).1 j in step ∙ rw (e) refl

event-AtMostOnce :
    (k : ℕ) (held : List ℕ) → AtMostOnce held → AtMostOnce (flags_changed_event k held).0
unfolding flags_changed_event
event-AtMostOnce k held h =
    changed-AtMostOnce k held (cgkeycode_to_modifier_flag k) (cgkeycode_to_hid_usage k) h

event-occurs :
    (k j usage : ℕ) (held : List ℕ)
    → IsForwarded j usage
    → AtMostOnce held
    → occurs j (flags_changed_event k held).0 ≡ flipped k j (occurs j held)
unfolding flags_changed_event
event-occurs k j usage held fw h = elim (Bool-cases (k == j)) [
  | inl e ↦
      (let own = (forwarded_step j usage held fw h).1 j in
        let same = (==_iff k j).0 e in
        let at_k : occurs j (flags_changed_event k held).0
            ≡ occurs j (flags_changed_event j held).0 =
          ap (λ (x : ℕ). occurs j (flags_changed_event x held).0) same in
        at_k ∙ own ∙ ap (λ (x : ℕ). flipped x j (occurs j held)) (sym same))
  | inr e ↦
      (other_step k j held (cgkeycode_to_modifier_flag k) (cgkeycode_to_hid_usage k) e h
        ∙ rw (e) refl)
]

held_after_lem :
    (ks held : List ℕ) (j usage : ℕ)
    → IsForwarded j usage
    → AtMostOnce held
    → (occurs j (held_after held ks) ≡ (occurs j held + changes_of j ks) % 2)
      × AtMostOnce (held_after held ks)
unfolding held_after changes_of
held_after_lem [] held j usage fw h = let once = h j in (omega (arith, once), h)
held_after_lem (k ∷ ks) held j usage fw h =
    let once = h j in
    let (count, keep) =
      held_after_lem ks (flags_changed_event k held).0 j usage fw (event-AtMostOnce k held h) in
    let step = event-occurs k j usage held fw h in (count ∙ rw (step) (ground (arith, once)), keep)

-- Whatever modifier keys change, in whatever order, from a start with none held: the change of a key
-- that is forwarded is reported with its usage, as pressed if it changed an even number of times
-- before, and as released if it changed an odd number of times. So its presses and releases take
-- turns, also while its twin on the other side is held.
pub reports_alternate :
    (ks : List ℕ) (k usage : ℕ)
    → IsForwarded k usage
    → (flags_changed_event k (held_after [] ks)).1 ≡ some (usage, changes_of k ks % 2 == 0)
unfolding occurs
reports_alternate ks k usage fw =
    let (count, once) = held_after_lem ks [] k usage fw (λ j. omega arith) in
    let (report, rest) = forwarded_step k usage (held_after [] ks) fw once in
    let sum : 0 + changes_of k ks ≡ changes_of k ks = omega arith in
    report
    ∙ ap (λ (n : ℕ). some (usage, n == 0)) count
    ∙ ap (λ (n : ℕ). some (usage, n % 2 == 0)) sum
