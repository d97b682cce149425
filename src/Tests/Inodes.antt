-- ===== src/Tests/Inodes.antt =====
-- Tests of inode.c.
use cs140_operating_systems.Base.{
  ℕ, suc, length, length-replicate, ◌/◌, ◌%◌, ◌+◌, ◌-◌, ◌^◌, ◌<◌, ◌≡◌, refl, ap, true, false, none,
  some, List, [], ◌∷◌, arith, replicate,
}
use cs140_operating_systems.FreeMap.{whole}
use cs140_operating_systems.Cache.{Block, block_sector_size, Locks, cached_block_init}
use cs140_operating_systems.RwLock.{RwLock, w_try_lock_acquire}
use cs140_operating_systems.Inode.{Fs}
use cs140_operating_systems.Cache.Inv.{view, view_at}
use cs140_operating_systems.Cache.Read.{init-IsValid}
use cs140_operating_systems.Inode.{entry, lookup}
use cs140_operating_systems.Inode.Index.{Ready, Stands, resolve, lookup-resolve}
use cs140_operating_systems.Inode.Range.{wrote}
use cs140_operating_systems.Inode.Open.{
  Inode, find, inode_open, inode_close, inode_write_at, inode_read_at,
}
use cs140_operating_systems.Inode.Open.Laws.{
  inode_write_at-w_try_lock_acquire, inode_read_at-panics, inode_open-inode_close,
}

abbrev no_locks : Locks
no_locks = record { entry_held = λ _. false; sector_held = λ _. false }

-- A file system of 64 sectors behind a cache of 4 entries.
abbrev small : Fs
small = record {
  device = cached_block_init (λ _. replicate 512 0) 64 (replicate 20 0) 4;
  map = record {
    free_map = record { bit_cnt = 64; bits = 7 ∷ 0 ∷ [] };
    free_map_file = some (7 ∷ 0 ∷ []);
  };
}

abbrev idle_lock : RwLock
idle_lock = record {
  w_holder = none;
  level = 0;
  waiters = [];
  waits_write = λ _. false;
  asleep = λ _. false;
}

-- Sector 2 is open once, and a write to it is denied.
abbrev denied : Inode
denied = record {
  rwlock = idle_lock;
  sector = 2;
  open_cnt = 1;
  removed = false;
  deny_write_cnt = 1;
}

inode_write_at-w_try_lock_acquire_example :
    (l : RwLock) × (inode_write_at no_locks whole 0 true small denied (9 ∷ []) 1 0
      ≡ some (small, l, wrote 0))
    × (l.level ≡ 0 + 1)
    × ((w_try_lock_acquire 1 l).1 ≡ false)
inode_write_at-w_try_lock_acquire_example =
    inode_write_at-w_try_lock_acquire no_locks whole 0 1 true small denied (9 ∷ []) 1 0 refl
      (omega arith) (omega arith)

inode_read_at-panics_example : inode_read_at no_locks whole 0 true small denied 1 (2 ^ 24) ≡ none
inode_read_at-panics_example =
    inode_read_at-panics no_locks whole 0 true small denied 1 (2 ^ 24) refl (omega arith)
      (omega arith) (omega arith)

only_one :
    (x : Inode) → find 2 (denied ∷ []) ≡ some x → (0 < x.open_cnt) × (x.open_cnt < 2 ^ 32 - 1)
only_one x f =
    let same : denied ≡ x = cc in
    let cnt : 1 ≡ x.open_cnt = ap (λ i. i.open_cnt) same in (omega (arith, cnt), omega (arith, cnt))

inode_open-inode_close_example :
    (xs' : List Inode) × (inode_open true idle_lock (denied ∷ []) 2 ≡ some xs')
    × (inode_close no_locks whole small xs' 2 ≡ some (small, denied ∷ []))
inode_open-inode_close_example =
    inode_open-inode_close no_locks whole small idle_lock (denied ∷ []) 2 (omega arith) only_one

-- Entry 0 of each sector names the next sector, all others name none.
abbrev chained : ℕ → Block
chained s = (s + 1) ∷ 0 ∷ replicate 510 255

length-chained : (s : ℕ) → length (chained s) ≡ block_sector_size
length-chained s = ap (λ n. suc (suc n)) (length-replicate {A = ℕ} 510 255)

abbrev chained_fs : Fs
chained_fs = record {
  device = cached_block_init chained 16 (replicate 20 0) 4;
  map = record { free_map = record { bit_cnt = 16; bits = 7 ∷ [] }; free_map_file = none };
}

chained-Ready : Ready chained_fs
unfolding cached_block_init
chained-Ready = record {
  valid = (init-IsValid chained 16 (replicate 20 0) 4 length-chained).0;
  entries = omega arith;
  few = omega arith;
  small = omega arith;
}

chained_size : chained_fs.device.size ≡ 16
unfolding cached_block_init
chained_size = refl

first_entry : entry (view chained_fs.device 2) (0 / 1024) ≡ 3
unfolding view_at cached_block_init
first_entry = refl

second_entry :
    entry (view chained_fs.device (entry (view chained_fs.device 2) (0 / 1024))) (0 / 32 % 32) ≡ 4
unfolding view_at cached_block_init
second_entry = refl

resolved : resolve (view chained_fs.device) 2 0 ≡ 5
unfolding resolve view_at cached_block_init
resolved = refl

lookup-resolve_example :
    (fs' : Fs) × (lookup no_locks whole true chained_fs 2 0 false
      ≡ some (fs', false, resolve (view chained_fs.device) 2 0))
    × Stands chained_fs fs'
lookup-resolve_example =
    lookup-resolve no_locks whole chained_fs 2 0 chained-Ready (omega arith)
      (omega (arith, chained_size)) (λ _. omega (arith, first_entry, chained_size))
      (λ _. omega (arith, second_entry, chained_size))
