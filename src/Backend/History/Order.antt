-- ===== src/Backend/History/Order.antt =====
-- Lists of logs in the order of time (backend/app/repositories/attendance_repository.py).
use mathlib.Core.List.{Permᴰ}
use mathlib.Core.List.Permᴰ as Perm
use pwa_attendance_record_sy.Prelude.{
  ℕ, ◌≡◌, refl, Bool, true, ◌&&◌, ◌||◌, List, [], ◌∷◌, ◌++◌, filter, All, All-if, arith, ltb, leb,
  ◌==◌, Bool-cases, inl, inr,
}
use pwa_attendance_record_sy.Text.{Text}
use pwa_attendance_record_sy.Backend.History.{AttendanceLog, insert_log, sort_logs, is_of}

-- No log is later than the next.
abbrev pub is_before : AttendanceLog → AttendanceLog → Bool
is_before k l = ltb k.date l.date || (k.date == l.date && leb k.time l.time)

abbrev pub IsOrdered : List AttendanceLog → Type 0
IsOrdered [] = Unit
IsOrdered (l ∷ ls) = All (λ k. is_before l k ≡ true) ls × IsOrdered ls

pub All-impl :
    (P Q : AttendanceLog → Type 0)
    → ((l : AttendanceLog) → P l → Q l)
    → (ls : List AttendanceLog) → All P ls
    → All Q ls
All-impl P Q f [] h = tt
All-impl P Q f (l ∷ ls) (h, hs) = (f l h, All-impl P Q f ls hs)

pub All-append :
    (P : AttendanceLog → Type 0) (xs ys : List AttendanceLog)
    → All P xs
    → All P ys
    → All P (xs ++ ys)
All-append P [] ys h k = k
All-append P (x ∷ xs) ys (h, hs) k = (h, All-append P xs ys hs k)

pub IsOrdered-append :
    (xs ys : List AttendanceLog)
    → IsOrdered xs
    → IsOrdered ys
    → All (λ x. All (λ y. is_before x y ≡ true) ys) xs
    → IsOrdered (xs ++ ys)
IsOrdered-append [] ys p q h = q
IsOrdered-append (x ∷ xs) ys (p, ps) q (h, hs) =
    (All-append _ xs ys p h, IsOrdered-append xs ys ps q hs)

pub All-filter-is_of :
    (emp_id : Text) (date : ℕ) (ls : List AttendanceLog)
    → All (λ l. l.date ≡ date) (filter (is_of emp_id date) ls)
All-filter-is_of emp_id date [] = tt
All-filter-is_of emp_id date (l ∷ ls) =
    All-if _ (is_of emp_id date l) l (filter (is_of emp_id date) ls) (λ e. ground arith)
      (All-filter-is_of emp_id date ls)

All-insert_log :
    (P : AttendanceLog → Type 0) (l : AttendanceLog) (ks : List AttendanceLog)
    → P l
    → All P ks
    → All P (insert_log l ks)
unfolding insert_log
All-insert_log P l [] h hs = (h, tt)
All-insert_log P l (k ∷ ks) h (p, ps) = elim (Bool-cases (ltb k.time l.time)) [
  | inl e ↦ rw e (p, All-insert_log P l ks h ps)
  | inr e ↦ rw e (h, (p, ps))
]

insert_log-Perm : (l : AttendanceLog) (ks : List AttendanceLog) → Permᴰ (insert_log l ks) (l ∷ ks)
unfolding insert_log
insert_log-Perm l [] = Perm.refl (l ∷ [])
insert_log-Perm l (k ∷ ks) = elim (Bool-cases (ltb k.time l.time)) [
  | inl e ↦ rw e (Perm.trans (Perm.cons refl (insert_log-Perm l ks)) (Perm.swap refl refl))
  | inr e ↦ rw e (Perm.refl (l ∷ k ∷ ks))
]

pub sort_logs-Perm : (ls : List AttendanceLog) → Permᴰ (sort_logs ls) ls
unfolding sort_logs
sort_logs-Perm [] = Perm.nil
sort_logs-Perm (l ∷ ls) =
    Perm.trans (insert_log-Perm l (sort_logs ls)) (Perm.cons refl (sort_logs-Perm ls))

pub All-sort_logs :
    (P : AttendanceLog → Type 0) (ls : List AttendanceLog) → All P ls → All P (sort_logs ls)
unfolding sort_logs
All-sort_logs P [] h = tt
All-sort_logs P (l ∷ ls) (h, hs) = All-insert_log P l (sort_logs ls) h (All-sort_logs P ls hs)

insert_log-IsOrdered :
    (date : ℕ) (l : AttendanceLog) (ks : List AttendanceLog)
    → l.date ≡ date
    → All (λ k. k.date ≡ date) ks
    → IsOrdered ks
    → IsOrdered (insert_log l ks)
unfolding insert_log
insert_log-IsOrdered date l [] d ds o = (tt, tt)
insert_log-IsOrdered date l (k ∷ ks) d (d', ds) (p, ps) = elim (Bool-cases (ltb k.time l.time)) [
  | inl e ↦ rw e (
    All-insert_log (λ x. is_before k x ≡ true) l ks (ground arith) p,
    insert_log-IsOrdered date l ks d ds ps,
  )
  | inr e ↦
      let below : is_before l k ≡ true = ground arith in
      rw e ((below, All-impl _ _ (λ x h. ground arith) ks p), (p, ps))
]

pub sort_logs-IsOrdered :
    (date : ℕ) (ls : List AttendanceLog) → All (λ l. l.date ≡ date) ls → IsOrdered (sort_logs ls)
unfolding sort_logs
sort_logs-IsOrdered date [] h = tt
sort_logs-IsOrdered date (l ∷ ls) (h, hs) =
    insert_log-IsOrdered date l (sort_logs ls) h (All-sort_logs _ ls hs)
      (sort_logs-IsOrdered date ls hs)
