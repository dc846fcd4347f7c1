-- ===== src/Admin/Ranks/Laws.antt =====
-- The ranks stay free of repetitions, moves reorder, and what happens to a rank added during a
-- save (frontend/src/components/admin/RanksTab.tsx).
use mathlib.Core.List.{Permᴰ}
use mathlib.Core.List.Permᴰ as Perm
use pwa_attendance_record_sy.Prelude.{
  ℕ, zero, suc, ◌<◌, ◌≡◌, refl, sym, ◌∙◌, ap, subst, Bool, true, false, not, ◌&&◌, ◌||◌, List, [],
  ◌∷◌, none, some, arith, All, length, leb, if◌then◌else◌, Bool-cases, inl, inr, ◌==◌,
}
use pwa_attendance_record_sy.Text.{Text, text_eq, includes, truthy, trim}
use pwa_attendance_record_sy.Admin.Names.{
  IsDistinct, IsDistinct-append_last, IsDistinct-filter, IsDistinct-Perm, exchange, exchange-Perm,
  exchange_comm, exchange-exchange, length-exchange,
}
use pwa_attendance_record_sy.Admin.Ranks.{
  RanksTab, handle_add, handle_remove, move_up, move_down, handle_save, save_done, load_done,
  is_shown, load_refused, save_refused, Event, type_rank, add_click, add_enter, remove_click,
  up_click, down_click, save_click, loaded, not_loaded, stored, not_stored, step, run,
}

-- A list that the service answers with has no repetitions.
abbrev pub IsHonest : Event → Type 0
IsHonest (loaded (some ranks)) = IsDistinct ranks
IsHonest (stored ranks) = IsDistinct ranks
IsHonest _ = Unit

abbrev pub Distinct : RanksTab → Type 0
Distinct p = IsDistinct p.ranks

-- Whichever branch is taken, the ranks have no repetitions.
distinct_if : (b : Bool) (p q : RanksTab) → Distinct p → Distinct q → Distinct (if b then p else q)
distinct_if true p q h k = h
distinct_if false p q h k = k

Perm_if : (b : Bool) (xs ys : List Text) → Permᴰ ys xs → Permᴰ (if b then xs else ys) xs
Perm_if true xs ys p = Perm.refl xs
Perm_if false xs ys p = p

move_up-Perm : (index : ℕ) (ranks : List Text) → Permᴰ (move_up index ranks) ranks
unfolding move_up
move_up-Perm zero ranks = Perm.refl ranks
move_up-Perm (suc i) ranks =
    Perm_if (leb (length ranks) i) ranks (exchange (suc i) i ranks)
      (subst (λ xs. Permᴰ xs ranks) (sym (exchange_comm i ranks)) (exchange-Perm i ranks))

move_down-Perm : (index : ℕ) (ranks : List Text) → Permᴰ (move_down index ranks) ranks
unfolding move_down
move_down-Perm index ranks =
    Perm_if (leb (length ranks) (suc index)) ranks (exchange index (suc index) ranks)
      (exchange-Perm index ranks)

handle_add-Distinct : (p : RanksTab) → Distinct p → Distinct (handle_add p)
unfolding handle_add
handle_add-Distinct p h = elim (Bool-cases (truthy (trim p.new_rank))) [
  | inr blank ↦ rw blank h
  | inl some_text ↦ elim (Bool-cases (includes (trim p.new_rank) p.ranks)) [
    | inl listed ↦ rw (some_text, listed) h
    | inr new ↦ rw (some_text, new) (IsDistinct-append_last (trim p.new_rank) p.ranks new h)
  ]
]

moved : (p q : RanksTab) → Permᴰ q.ranks p.ranks → Distinct p → Distinct q
moved p q m h = IsDistinct-Perm p.ranks q.ranks (Perm.symm m) h

save_click-Distinct : (p : RanksTab) → Distinct p → Distinct (step p save_click).0
unfolding step handle_save
save_click-Distinct p h = elim (Bool-cases (is_shown p && not p.is_submitting)) [
  | inl e ↦ rw e h
  | inr e ↦ rw e h
]

step-Distinct : (p : RanksTab) (e : Event) → IsHonest e → Distinct p → Distinct (step p e).0
unfolding step handle_remove save_done load_done load_refused save_refused handle_save
step-Distinct p (type_rank t) a h = distinct_if (is_shown p) (record p { new_rank = t }) p h h
step-Distinct p add_click a h =
    distinct_if (is_shown p && not p.is_submitting) (handle_add p) p (handle_add-Distinct p h) h
step-Distinct p add_enter a h =
    distinct_if (is_shown p) (handle_add p) p (handle_add-Distinct p h) h
step-Distinct p (remove_click rank) a h =
    distinct_if (is_shown p && not p.is_submitting) (handle_remove rank p) p
      (IsDistinct-filter (λ r. not (text_eq r rank)) p.ranks h) h
step-Distinct p (up_click index) a h =
    let q = record p { ranks = move_up index p.ranks; message = none } in
    let inner = index == 0 || leb (length p.ranks) index in
    distinct_if (is_shown p && not p.is_submitting) (if inner then p else q) p
      (distinct_if inner p q h (moved p q (move_up-Perm index p.ranks) h)) h
step-Distinct p (down_click index) a h =
    let q = record p { ranks = move_down index p.ranks; message = none } in
    let inner = leb (length p.ranks) (suc index) in
    distinct_if (is_shown p && not p.is_submitting) (if inner then p else q) p
      (distinct_if inner p q h (moved p q (move_down-Perm index p.ranks) h)) h
step-Distinct p save_click a h = save_click-Distinct p h
step-Distinct p (loaded none) a h = tt
step-Distinct p (loaded (some ranks)) a h = a
step-Distinct p (not_loaded t) a h = h
step-Distinct p (stored ranks) a h = a
step-Distinct p (not_stored t) a h = h

-- Whatever the user does, and as long as the service answers with lists free of repetitions, no
-- rank is listed twice.
pub run-Distinct :
    (p : RanksTab) (es : List Event) → Distinct p → All IsHonest es → Distinct (run p es)
unfolding run
run-Distinct p [] h a = h
run-Distinct p (e ∷ es) h (a, rest) = run-Distinct (step p e).0 es (step-Distinct p e a h) rest

-- What a click on a move button leaves in the middle of a list.
module _ (p : RanksTab) (i : ℕ) (shown : is_shown p ≡ true) (idle : p.is_submitting ≡ false)
    (below : suc i < length p.ranks) where
  down_click_lem :
      (step p (down_click i)).0 ≡ record p { ranks = exchange i (suc i) p.ranks; message = none }
  unfolding step move_down
  down_click_lem =
      let inside : leb (length p.ranks) (suc i) ≡ false = ground arith in
      rw (shown, idle, inside) refl

  up_click_lem :
      (step p (up_click (suc i))).0
      ≡ record p { ranks = exchange (suc i) i p.ranks; message = none }
  unfolding step move_up
  up_click_lem =
      let inside : leb (length p.ranks) (suc i) ≡ false = ground arith in
      let inside' : leb (length p.ranks) i ≡ false = ground arith in ground arith

-- In a shown list, a click on the button that moves a rank down, where it is not the last one,
-- only reorders the ranks, and moving the rank up again restores the order.
pub down_click-Perm :
    (p : RanksTab) (i : ℕ)
    → is_shown p ≡ true
    → p.is_submitting ≡ false
    → suc i < length p.ranks
    → Permᴰ (step p (down_click i)).0.ranks p.ranks
      × ((run p (down_click i ∷ up_click (suc i) ∷ [])).ranks ≡ p.ranks)
unfolding run
down_click-Perm p i shown idle below =
    let q = record p { ranks = exchange i (suc i) p.ranks; message = none } in
    let down = down_click_lem p i shown idle below in
    (
      subst (λ r. Permᴰ r.ranks p.ranks) (sym down) (exchange-Perm i p.ranks),
      ap (λ r. (step r (up_click (suc i))).0.ranks) down
          ∙ ap (λ r. r.ranks)
              (up_click_lem q i (unfold is_shown in shown) idle
                (omega (arith, length-exchange i p.ranks, below)))
          ∙ exchange_comm i q.ranks
          ∙ exchange-exchange i p.ranks,
    )

-- A rank that is entered by the Enter key during a save is lost when the save has been stored: the
-- list is then the service's answer to the list without it, and the input is empty.
pub add_enter-stored :
    (p : RanksTab) (name : Text) (answer : List Text)
    → is_shown p ≡ true
    → p.is_submitting ≡ false
    → truthy (trim name) ≡ true
    → includes (trim name) p.ranks ≡ false
    → let q = run p (save_click ∷ type_rank name ∷ add_enter ∷ stored answer ∷ []) in
      (q.ranks ≡ answer) × (q.new_rank ≡ []) × ((step p save_click).1 ≡ some p.ranks)
unfolding step run handle_add handle_save is_shown
add_enter-stored p name answer shown idle t n = (refl, ground arith, ground arith)
