-- ===== src/Inode/Open.antt =====
-- Project 4: File System/src/filesys/inode.c: inodes in memory. A sector is open at most once, so its
-- number stands for the pointer to its `struct inode`. The calls run under l_lock, or are one atomic
-- instruction.
pub mod Laws
use cs140_operating_systems.Base.{
  ℕ, zero, suc, ◌+◌, ◌-◌, ◌*◌, ◌/◌, ◌%◌, ◌^◌, Bool, true, false, not, Option, none, some, List, [],
  ◌∷◌, ◌++◌, ◌==◌, ltb, if◌then◌else◌, ◌>>=◌, ◌>>◌, assert,
}
use cs140_operating_systems.FreeMap.{Written}
use cs140_operating_systems.Cache.{Block, Locks, sector_num}
use cs140_operating_systems.RwLock.{
  RwLock, Wait, got, sleep, rw_lock_init, r_lock_acquire, r_lock_release, r_lock_upgrade_to_w,
  w_lock_release,
}
use cs140_operating_systems.Inode.{Fs, no_sector, read_block, lookup}
use cs140_operating_systems.Inode.Range.{
  Wrote, blocked, wrote, word_at, round_up, free_sectors, read_body, write_body, grow_loop,
}

-- The counts are 32 bits wide.
pub record Inode : Type 0 where
  pub rwlock : RwLock
  pub sector : ℕ
  pub open_cnt : ℕ
  pub removed : Bool
  pub deny_write_cnt : ℕ

abbrev pub find : ℕ → List Inode → Option Inode
find sector [] = none
find sector (x ∷ xs) = if x.sector == sector then some x else find sector xs

-- The list with the inode of the sector changed, or taken out where the change gives none.
abbrev pub change : ℕ → (Inode → Option Inode) → List Inode → List Inode
change sector f [] = []
change sector f (x ∷ xs) =
    if x.sector == sector
    then (elim (f x) [ none ↦ xs | some y ↦ y ∷ xs ])
    else x ∷ change sector f xs

abbrev pub incr : ℕ → ℕ
incr n = (n + 1) % 2 ^ 32

abbrev pub decr : ℕ → ℕ
decr n = (n + (2 ^ 32 - 1)) % 2 ^ 32

unfoldable pub inode_reopen : List Inode → ℕ → List Inode
inode_reopen open_inodes sector =
    change sector (λ x. some (record x { open_cnt = incr x.open_cnt })) open_inodes

-- memory: malloc gives a new inode. lock: what rw_lock_init makes.
unfoldable pub open_found : Bool → RwLock → List Inode → ℕ → Option Inode → Option (List Inode)
open_found memory lock open_inodes sector (some x) = some (inode_reopen open_inodes sector)
open_found memory lock open_inodes sector none = do
  assert memory
  some (
      record { rwlock = lock; sector = sector; open_cnt = 1; removed = false; deny_write_cnt = 0 }
      ∷ open_inodes)

unfoldable pub inode_open : Bool → RwLock → List Inode → ℕ → Option (List Inode)
inode_open memory lock open_inodes sector = do
  assert (ltb sector sector_num)
  open_found memory lock open_inodes sector (find sector open_inodes)

-- Without its last opener the inode is taken from the list.
abbrev pub drop_opener : Inode → Option Inode
drop_opener x =
    if decr x.open_cnt == 0 then none else some (record x { open_cnt = decr x.open_cnt })

unfoldable pub inode_remove : List Inode → ℕ → List Inode
inode_remove open_inodes sector =
    change sector (λ x. some (record x { removed = true })) open_inodes

unfoldable pub inode_deny_write : List Inode → ℕ → List Inode
inode_deny_write open_inodes sector =
    change sector (λ x. some (record x { deny_write_cnt = incr x.deny_write_cnt })) open_inodes

unfoldable pub inode_allow_write : List Inode → ℕ → List Inode
inode_allow_write open_inodes sector =
    change sector (λ x. some (record x { deny_write_cnt = decr x.deny_write_cnt })) open_inodes

module _ (locks : Locks) (written : Written) where
  -- `none` in the place of the inode is a pointer to none that is open.
  unfoldable pub close_found : Fs → List Inode → ℕ → Option Inode → Option (Fs × List Inode)
  close_found fs open_inodes sector none = none
  close_found fs open_inodes sector (some x) =
      (if decr x.open_cnt == 0
        then (if x.removed then free_sectors locks written fs sector else some fs)
        else some fs)
      >>= λ fs'. some (fs', change sector drop_opener open_inodes)

  unfoldable pub inode_close : Fs → List Inode → ℕ → Option (Fs × List Inode)
  inode_close fs open_inodes sector = close_found fs open_inodes sector (find sector open_inodes)

  unfoldable pub inode_length : Fs → ℕ → Option (Fs × ℕ)
  inode_length fs sector =
      read_block locks written fs sector >>= λ (fs', meta). some (fs', word_at meta 4)

  -- Thread t reads; `none` in the place of the bytes where it sleeps in r_lock_acquire.
  unfoldable pub inode_read_at :
      ℕ → Bool → Fs → Inode → ℕ → ℕ → Option (Fs × RwLock × Option (List ℕ))
  inode_read_at t memory fs x size offset = r_lock_acquire t x.rwlock >>= λ (l1, w). elim w [
    | sleep ↦ some (fs, l1, none)
    | got ↦
        assert memory
        >> (read_body locks written memory fs x.sector size offset >>= λ (fs1, bytes).
            r_lock_release l1 >>= λ l2. some (fs1, l2, some bytes))
  ]

  -- Where the last page of the range is missing, thread t becomes the writer and adds pages.
  unfoldable pub write_grow :
      ℕ → Bool → Fs → RwLock → ℕ → Block → List ℕ → ℕ → ℕ → Option (Fs × RwLock × Wrote)
  write_grow t memory fs l sector meta buffer size offset = r_lock_upgrade_to_w t l >>= λ (l1, w).
      elim w [
        | sleep ↦ some (fs, l1, blocked)
        | got ↦
            grow_loop locks written (round_up (offset + size)) memory fs (word_at meta 0) >>= λ fs1.
            write_body locks written memory fs1 sector meta buffer size offset >>= λ (fs2, n).
            w_lock_release t l1 >>= λ l2. some (fs2, l2, wrote n)
      ]

  unfoldable pub write_range :
      ℕ → Bool → Fs → RwLock → ℕ → List ℕ → ℕ → ℕ → Option (Fs × RwLock × Wrote)
  write_range t memory fs l sector buffer size offset =
      assert memory
      >> (read_block locks written fs sector >>= λ (fs1, meta).
          lookup locks written memory fs1 (word_at meta 0) (round_up (offset + size)) false
          >>= λ (fs2, _, idx).
              if idx == no_sector
              then write_grow t memory fs2 l sector meta buffer size offset
              else (write_body locks written memory fs2 sector meta buffer size offset
                  >>= λ (fs3, n). r_lock_release l >>= λ l1. some (fs3, l1, wrote n)))

  -- A write that is denied returns without giving the lock back.
  unfoldable pub inode_write_at :
      ℕ → Bool → Fs → Inode → List ℕ → ℕ → ℕ → Option (Fs × RwLock × Wrote)
  inode_write_at t memory fs x buffer size offset = r_lock_acquire t x.rwlock >>= λ (l1, w).
      elim w [
        | sleep ↦ some (fs, l1, blocked)
        | got ↦
            if not (x.deny_write_cnt == 0)
            then some (fs, l1, wrote 0)
            else write_range t memory fs l1 x.sector buffer size offset
      ]
