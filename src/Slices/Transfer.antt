-- ===== src/Slices/Transfer.antt =====
-- A message that is cut into slices and received slice by slice.
use link_set.Prelude.{
  ℕ, zero, suc, ◌+◌, ◌-◌, ◌≤◌, ◌<◌, ◌≡◌, refl, sym, ap, ◌∙◌, List, [], ◌∷◌, some, min, max, ◌&&◌,
  arith, ltb, leb, if◌then◌else◌, length, take, drop, length-take, length-drop, get_elem?,
}
use link_set.Epoch.{u64_max}
use link_set.OrderedMap.{OrderedMap, entries_from, entries_before}
use link_set.Slices.{SliceManager, add_slice, copy_at, recv_slice}
use link_set.Slices.Ranges.{IsRuns, add_run, reach, left_over, attach, add_slice-add_run}

-- A piece of `orig`, copied to where it stands in `orig`.
copy_front :
    (n : ℕ) (orig bytes : List ℕ) (i : ℕ)
    → n ≤ length orig
    → n ≤ length bytes
    → get_elem? (copy_at zero (take n orig) bytes) i
      ≡ (if ltb i n then get_elem? orig i else get_elem? bytes i)
unfolding copy_at
copy_front zero orig [] i h k = ground arith
copy_front zero orig (b ∷ bytes) i h k = ground arith
copy_front (suc n) [] bytes i h k = absurd (omega arith)
copy_front (suc n) (o ∷ orig) [] i h k = absurd (omega arith)
copy_front (suc n) (o ∷ orig) (b ∷ bytes) zero h k = ground arith
copy_front (suc n) (o ∷ orig) (b ∷ bytes) (suc i) h k =
    ground (arith, copy_front n orig bytes i (omega arith) (omega arith))

copy_at_get :
    (first n : ℕ) (orig bytes : List ℕ) (i : ℕ)
    → first + n ≤ length orig
    → first + n ≤ length bytes
    → get_elem? (copy_at first (take n (drop first orig)) bytes) i
      ≡ (if leb first i && ltb i (first + n) then get_elem? orig i else get_elem? bytes i)
unfolding copy_at
copy_at_get zero n orig bytes i h k =
    ground (arith, copy_front n orig bytes i (omega arith) (omega arith))
copy_at_get (suc first) n [] bytes i h k = absurd (omega arith)
copy_at_get (suc first) n (o ∷ orig) [] i h k = absurd (omega arith)
copy_at_get (suc first) n (o ∷ orig) (b ∷ bytes) zero h k = ground arith
copy_at_get (suc first) n (o ∷ orig) (b ∷ bytes) (suc i) h k =
    ground (arith, copy_at_get first n orig bytes i (omega arith) (omega arith))

pub length-copy_at :
    (first : ℕ) (src bytes : List ℕ) → length (copy_at first src bytes) ≡ length bytes
unfolding copy_at
length-copy_at first src [] = refl
length-copy_at zero [] (b ∷ bytes) = refl
length-copy_at zero (s ∷ src) (b ∷ bytes) = ap suc (length-copy_at zero src bytes)
length-copy_at (suc first) src (b ∷ bytes) = ap suc (length-copy_at first src bytes)

-- The run that holds the first `c` bytes.
abbrev pub head_runs : ℕ → OrderedMap ℕ
head_runs zero = []
head_runs (suc last) = (0, last) ∷ []

head_runs_pos : (c : ℕ) → 0 < c → head_runs c ≡ (0, c - 1) ∷ []
head_runs_pos zero h = absurd (omega arith)
head_runs_pos (suc c) h = ap (λ l. (0, l) ∷ []) (omega arith)

head_runs-IsRuns : (c size : ℕ) → c ≤ size → IsRuns 0 size (head_runs c)
head_runs-IsRuns zero size h = tt
head_runs-IsRuns (suc c) size h = omega arith

add_run_head :
    (first last c : ℕ)
    → first ≤ last
    → first ≤ c
    → add_run first last (head_runs c) ≡ (0, max c (last + 1) - 1) ∷ []
unfolding add_run attach reach left_over entries_before entries_from
add_run_head first last zero h b = ground arith
add_run_head zero last (suc c) h b = ground arith
add_run_head (suc first) last (suc c) h b = ground arith

-- A slice that begins in the held head of a message, or right behind it, extends the head.
add_slice_head :
    (first n c size : ℕ)
    → 0 < n
    → first ≤ c
    → c ≤ size
    → first + n ≤ size
    → add_slice first (first + n - 1) (head_runs c) ≡ head_runs (max c (first + n))
add_slice_head first n c size p h b e =
    let last = first + n - 1 in
    add_slice-add_run first last 0 size (head_runs c) (head_runs-IsRuns c size b) (omega arith)
      (omega arith)
    ∙ add_run_head first last c (omega arith) h
    ∙ ap (λ m. (0, m) ∷ []) (omega arith)
    ∙ sym (head_runs_pos (max c (first + n)) (omega arith))

take_all : (xs : List ℕ) (n : ℕ) → length xs ≡ n → take n xs ≡ xs
take_all xs zero h = ground arith
take_all [] (suc n) h = refl
take_all (x ∷ xs) (suc n) h = ap (λ l. x ∷ l) (take_all xs n (omega arith))

-- A slice of the expected epoch and sequence number that lies inside the message is copied to its
-- place, and its range is added.
recv_slice_inside :
    (first : ℕ) (bytes : List ℕ) (mgr : SliceManager)
    → 0 < length bytes
    → first + length bytes ≤ length mgr.bytes
    → length mgr.bytes ≤ u64_max
    → recv_slice mgr.epoch mgr.seq first bytes mgr
      ≡ some (record mgr {
        slices = add_slice first (first + length bytes - 1) mgr.slices;
        bytes = copy_at first bytes mgr.bytes;
      })
unfolding recv_slice
recv_slice_inside first bytes mgr p h b =
    let last : min (first + length bytes - 1) (length mgr.bytes - 1) ≡ first + length bytes - 1 =
      omega arith in
    let size : first + length bytes - 1 - first + 1 ≡ length bytes = omega arith in
    ground (arith, last, size, take_all bytes (length bytes) refl)

-- The receiver of `orig` holds its first `c` bytes, and nothing behind them.
pub record HoldsHead (orig : List ℕ) (epoch seq c : ℕ) (mgr : SliceManager) : Type 0 where
  pub same_epoch : mgr.epoch ≡ epoch
  pub same_seq : mgr.seq ≡ seq
  pub same_length : length mgr.bytes ≡ length orig
  pub in_message : c ≤ length orig
  pub runs : mgr.slices ≡ head_runs c
  pub agrees : (i : ℕ) → i < c → get_elem? mgr.bytes i ≡ get_elem? orig i

-- A slice of `orig` that begins in the held head or right behind it, whole or in part a repetition,
-- is received, and the head reaches to its end.
pub recv_slice-HoldsHead :
    (orig : List ℕ) (epoch seq c first n : ℕ) (mgr : SliceManager)
    → HoldsHead orig epoch seq c mgr
    → length orig ≤ u64_max
    → 0 < n
    → first ≤ c
    → first + n ≤ length orig
    → (mgr' : SliceManager) × (recv_slice epoch seq first (take n (drop first orig)) mgr
        ≡ some mgr')
      × HoldsHead orig epoch seq (max c (first + n)) mgr'
recv_slice-HoldsHead orig epoch seq c first n mgr v fits p h e =
    let piece = take n (drop first orig) in
    let next = record mgr {
      slices = add_slice first (first + n - 1) mgr.slices;
      bytes = copy_at first piece mgr.bytes;
    } in
    let size : length piece ≡ n =
      omega (arith, length-take n (drop first orig), length-drop first orig) in
    let received : recv_slice epoch seq first piece mgr ≡ some next =
      ground (arith, size, recv_slice_inside first piece mgr) in
    (
      next,
      received,
      record {
        same_epoch = v.same_epoch;
        same_seq = v.same_seq;
        same_length = length-copy_at first piece mgr.bytes ∙ v.same_length;
        in_message = omega (arith, v.in_message);
        runs =
            ap (add_slice first (first + n - 1)) v.runs
            ∙ add_slice_head first n c (length orig) p h v.in_message e;
        agrees = λ i b. ground (
          arith,
          copy_at_get first n orig mgr.bytes i e (omega (arith, v.same_length)),
          v.agrees i,
        );
      },
    )
