-- ===== src/Inode/Open/Laws.antt =====
-- Opening and closing inodes, denied writes, and offsets past the index.
use mathlib.Core.Path.{subst}
use cs140_operating_systems.Base.{
  ℕ, zero, suc, ◌+◌, ◌-◌, ◌/◌, ◌%◌, ◌^◌, ◌≤◌, ◌<◌, ◌≡◌, ◌≢◌, refl, sym, ap, ◌∙◌, Bool, true, false,
  Option, none, some, List, [], ◌∷◌, ◌==◌, ltb, ◌>>=◌, arith, inl, inr, Bool-cases, ==-eq_false,
  ==-refl, lt→ltb, update,
}
use cs140_operating_systems.FreeMap.{Written}
use cs140_operating_systems.Cache.{Locks, sector_num}
use cs140_operating_systems.RwLock.{RwLock, r_lock_acquire, r_attempt, w_try_lock_acquire}
use cs140_operating_systems.Inode.{Fs, lookup, read_block}
use cs140_operating_systems.Inode.Range.{wrote, read_loop, read_body, word_at}
use cs140_operating_systems.Inode.Open.{
  Inode, find, change, incr, decr, drop_opener, inode_reopen, open_found, inode_open, close_found,
  inode_close, inode_write_at, inode_read_at,
}

-- A page from 32,768 on is past the index: lookup fails its ASSERT.
lookup-none :
    (locks : Locks) (written : Written) (memory create : Bool) (fs : Fs) (lvl1 upage : ℕ)
    → 2 ^ 15 ≤ upage
    → upage < 2 ^ 16
    → lookup locks written memory fs lvl1 upage create ≡ none
unfolding lookup
lookup-none locks written memory create fs lvl1 upage lo hi =
    let big : ltb (upage % 2 ^ 16 / 1024) 32 ≡ false =
      let q : 32 ≤ upage % 2 ^ 16 / 1024 = omega arith in ground arith in
    rw big

read_loop-panics :
    (locks : Locks) (written : Written) (memory : Bool) (fs : Fs) (lvl1 length size offset fuel : ℕ)
    → 0 < size
    → 2 ^ 24 ≤ offset
    → offset < 2 ^ 25
    → read_loop locks written (suc fuel) memory fs lvl1 length size offset ≡ none
unfolding read_loop
read_loop-panics locks written memory fs lvl1 length size offset fuel hs lo hi =
    let past =
      lookup-none locks written memory false fs lvl1 (offset / 512) (omega arith) (omega arith) in
    rw (==-eq_false size 0 (omega arith), past)

bind_none :
    {A B : Type 0} (m : Option A) (f : A → Option B) → ((a : A) → f a ≡ none) → (m >>= f) ≡ none
bind_none none f h = refl
bind_none (some a) f h = h a

read_body-none :
    (locks : Locks) (written : Written) (memory : Bool) (fs : Fs) (sector size offset : ℕ)
    → 0 < size
    → 2 ^ 24 ≤ offset
    → offset < 2 ^ 25
    → read_body locks written memory fs sector size offset ≡ none
unfolding read_body
read_body-none locks written memory fs sector zero offset hs lo hi = elim hs [ ]
read_body-none locks written memory fs sector (suc fuel) offset hs lo hi =
    bind_none (read_block locks written fs sector)
      (λ (fs1, meta).
        read_loop (locks) written (suc fuel) memory fs1 (word_at meta 0) (word_at meta 4) (suc fuel)
          offset)
      (λ (fs1, meta).
        read_loop-panics locks written memory fs1 (word_at meta 0) (word_at meta 4) (suc fuel)
          offset fuel hs lo hi)

-- A thread that gets the lock and reads anything at an offset of 16 MiB up to 32 MiB fails an ASSERT, in
-- every state of the file system and whatever the length of the file.
pub inode_read_at-panics :
    (locks : Locks) (written : Written) (t : ℕ) (memory : Bool) (fs : Fs) (x : Inode)
    (size offset : ℕ)
    → x.rwlock.w_holder ≡ none
    → 0 < size
    → 2 ^ 24 ≤ offset
    → offset < 2 ^ 25
    → inode_read_at locks written t memory fs x size offset ≡ none
unfolding inode_read_at r_lock_acquire r_attempt
inode_read_at-panics locks written t false fs x size offset free hs lo hi = rw free
inode_read_at-panics locks written t true fs x size offset free hs lo hi =
    rw (free, read_body-none locks written true fs x.sector size offset hs lo hi)

-- A write to an inode whose writes are denied, by a thread that gets the lock: it writes nothing, and the
-- lock counts one reader more than before, so that no thread can take it to write.
pub inode_write_at-w_try_lock_acquire :
    (locks : Locks) (written : Written) (t u : ℕ) (memory : Bool) (fs : Fs) (x : Inode)
    (buffer : List ℕ) (size offset : ℕ)
    → x.rwlock.w_holder ≡ none
    → x.rwlock.level < 2 ^ 16 - 1
    → x.deny_write_cnt ≢ 0
    → (l : RwLock) × (inode_write_at locks written t memory fs x buffer size offset
        ≡ some (fs, l, wrote 0))
      × (l.level ≡ x.rwlock.level + 1)
      × ((w_try_lock_acquire u l).1 ≡ false)
unfolding inode_write_at r_lock_acquire r_attempt w_try_lock_acquire
inode_write_at-w_try_lock_acquire locks written t u memory fs x buffer size offset free few denied =
    (
      record x.rwlock {
        waits_write = update x.rwlock.waits_write t false;
        level = (x.rwlock.level + 1) % 2 ^ 16;
      },
      rw (free, ==-eq_false x.deny_write_cnt 0 denied),
      omega arith,
      let pos : ((x.rwlock.level + 1) % 2 ^ 16 == 0) ≡ false =
            ==-eq_false ((x.rwlock.level + 1) % 2 ^ 16) 0 (omega arith) in
          rw (free, pos),
    )

decr-incr : (n : ℕ) → n < 2 ^ 32 - 1 → decr (incr n) ≡ n
decr-incr n h = omega arith

-- What opening a second time and closing once do to a list whose inode of the sector is x.
Again : ℕ → List Inode → Inode → Type 0
Again sector xs x =
    (find sector (inode_reopen xs sector) ≡ some (record x { open_cnt = incr x.open_cnt }))
    × (change sector drop_opener (inode_reopen xs sector) ≡ xs)

first-Again :
    (sector : ℕ) (y : Inode) (ys : List Inode)
    → (y.sector == sector) ≡ true
    → 0 < y.open_cnt
    → y.open_cnt < 2 ^ 32 - 1
    → Again sector (y ∷ ys) y
unfolding inode_reopen Again
first-Again sector y ys e lo hi =
    let back : decr (incr y.open_cnt) ≡ y.open_cnt = decr-incr y.open_cnt hi in
    let stays : (y.open_cnt == 0) ≡ false = ==-eq_false y.open_cnt 0 (omega arith) in
    (rw (e, e), rw (e, e, back, stays))

find-Again :
    (sector : ℕ) (xs : List Inode) (x : Inode)
    → find sector xs ≡ some x
    → 0 < x.open_cnt
    → x.open_cnt < 2 ^ 32 - 1
    → Again sector xs x
unfolding inode_reopen Again
find-Again sector [] x f lo hi = absurd (cc)
find-Again sector (y ∷ ys) x f lo hi = elim (Bool-cases (y.sector == sector)) [
  | inl e ↦
      let q : some y ≡ some x = sym (here e) ∙ f in
      let same : y ≡ x = cc in
      subst (Again sector (y ∷ ys)) same (
        first-Again sector y ys e (subst (λ z. 0 < z.open_cnt) (sym same) lo)
          (subst (λ z. z.open_cnt < 2 ^ 32 - 1) (sym same) hi))
  | inr ne ↦
      let (g, c) = find-Again sector ys x (sym (there ne) ∙ f) lo hi in
      (rw (ne, ne) g, rw (ne, ne) (ap (λ l. y ∷ l) c))
]
  where
    here : (y.sector == sector) ≡ true → find sector (y ∷ ys) ≡ some y
    here e = rw e

    there : (y.sector == sector) ≡ false → find sector (y ∷ ys) ≡ find sector ys
    there e = rw e

close_after :
    (locks : Locks) (written : Written) (fs : Fs) (lock : RwLock) (xs : List Inode) (sector : ℕ)
    (o : Option Inode)
    → find sector xs ≡ o
    → ((x : Inode) → o ≡ some x → (0 < x.open_cnt) × (x.open_cnt < 2 ^ 32 - 1))
    → (xs' : List Inode) × (open_found true lock xs sector o ≡ some xs')
      × (inode_close locks written fs xs' sector ≡ some (fs, xs))
unfolding open_found inode_close close_found Again
close_after locks written fs lock xs sector none f counts =
    (_, refl, rw (==-refl sector, ==-refl sector))
close_after locks written fs lock xs sector (some x) f counts =
    let (lo, hi) = counts x refl in
    let (g, c) = find-Again sector xs x f lo hi in
    let back : decr (incr x.open_cnt) ≡ x.open_cnt = decr-incr x.open_cnt hi in
    let stays : (x.open_cnt == 0) ≡ false = ==-eq_false x.open_cnt 0 (omega arith) in
    (inode_reopen xs sector, refl, rw (g, back, stays, c))

-- Opening a sector, open already or not, and closing it again fails no ASSERT and leaves the open inodes
-- and the file system as they were, if malloc has memory and an open inode has between 1 and 2 ^ 32 - 2
-- openers.
pub inode_open-inode_close :
    (locks : Locks) (written : Written) (fs : Fs) (lock : RwLock) (xs : List Inode) (sector : ℕ)
    → sector < sector_num
    → ((x : Inode) → find sector xs ≡ some x → (0 < x.open_cnt) × (x.open_cnt < 2 ^ 32 - 1))
    → (xs' : List Inode) × (inode_open true lock xs sector ≡ some xs')
      × (inode_close locks written fs xs' sector ≡ some (fs, xs))
unfolding inode_open
inode_open-inode_close locks written fs lock xs sector h counts =
    let (xs', run, closed) =
      close_after locks written fs lock xs sector (find sector xs) refl counts in
    (xs', rw (lt→ltb sector sector_num h) run, closed)
