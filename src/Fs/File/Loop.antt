-- ===== src/Fs/File/Loop.antt =====
-- The loop of fs_write in fs5600.c ends with the bytes written.
use systems_projects.Base.{
  ℕ, zero, suc, ◌+◌, ◌-◌, ◌*◌, ◌/◌, ◌%◌, ◌<◌, ◌≤◌, ◌≡◌, ◌⊎◌, refl, sym, ◌∙◌, false, some, Bytes,
  arith, length, take, drop, ◌==◌, ==_iff, if◌then◌else◌, inl, inr, length-take, length-drop,
}
use mathlib.Core.Path.{subst}
use systems_projects.Fs.Layout.{num_ptrs_inode, Inode}
use systems_projects.Fs.State.{Fs, done, block_read}
use systems_projects.Fs.State.Laws.{IsWritable, store-done, load-done}
use systems_projects.Fs.File.{chunk_len, ensure_block, overlay, write_loop}
use systems_projects.Fs.File.Chunk.{chunk_len-ChunkFits}
use systems_projects.Fs.File.Owned.{clear_below, ptr, IsOwner}
use systems_projects.Fs.File.Round.{Ensured, ensure_block-Ensured, ptr_at-done}
use systems_projects.Fs.File.Store.{stored_at, stored-IsOwner}
use systems_projects.Fs.File.Write.{needed, needed_congr, Wrote, Wrote-none, round-Wrote}

-- A round takes all that is left, or fills its block.
chunk_len_cases :
    (len moved offset : ℕ)
    → moved < len
    → (moved + chunk_len len moved offset ≡ len)
      ⊎ (offset % 4096 + chunk_len len moved offset ≡ 4096)
unfolding chunk_len
chunk_len_cases len moved offset lt = ground (arith, lt)

-- How many indices are left after a round, with enough free blocks for them.
room_left :
    (n : ℕ) (s s₁ : Fs) (i i₁ : Inode) (inum offset c left r : ℕ)
    → Ensured n s s₁ i i₁ inum (offset / 4096)
    → (left ≡ 0) ⊎ (offset % 4096 + c ≡ 4096)
    → offset + (c + left) ≤ (offset / 4096 + suc r) * 4096
    → needed i (offset / 4096) (suc r) ≤ clear_below s.bitmap n
    → (r' : ℕ) × (0 < left → offset + c + left ≤ ((offset + c) / 4096 + r') * 4096)
      × (needed i₁ ((offset + c) / 4096) r' ≤ clear_below s₁.bitmap n)
unfolding needed
room_left n s s₁ i i₁ inum offset c left r e (inl none_left) reach room =
    (0, λ lt. absurd (omega (arith, lt, none_left)), omega arith)
room_left n s s₁ i i₁ inum offset c left r e (inr full) reach room =
    let next : (offset + c) / 4096 ≡ suc (offset / 4096) = omega (arith, full) in
    let same : needed i₁ (suc (offset / 4096)) r ≡ needed i (suc (offset / 4096)) r =
      needed_congr i i₁ (suc (offset / 4096)) r (λ j le. e.others j (λ z. omega (arith, le, z))) in
    (r, λ lt. omega (arith, next, reach), rw (next, same) (omega (arith, e.left, room)))

-- The first of the indices is among them.
first_room :
    (n : ℕ) (s : Fs) (i : Inode) (index r : ℕ)
    → needed i index (suc r) ≤ clear_below s.bitmap n
    → (if ptr i index == 0 then 1 else 0) ≤ clear_below s.bitmap n
unfolding needed
first_room n s i index r room = omega (arith, room)

-- One round of the loop.
round-done :
    (f : ℕ) (s s₁ : Fs) (i i₁ : Inode) (inum len moved offset : ℕ) (buf b : Bytes)
    → moved < len
    → ensure_block i inum (offset / 4096) s ≡ done i₁ s₁
    → offset / 4096 < num_ptrs_inode
    → block_read (ptr i₁ (offset / 4096)) s₁.disk ≡ some b
    → IsWritable (ptr i₁ (offset / 4096))
    → let c = chunk_len len moved offset in
      write_loop (suc f) i inum len moved offset buf s
      ≡ write_loop f i₁ inum len
          (moved + c)
          (offset + c)
          (drop c buf)
          (stored_at s₁ i₁ offset (take c buf) b)
unfolding write_loop
round-done f s s₁ i i₁ inum len moved offset buf b lt ensured index_lt at ok =
    rw
      (
        not_done,
        ensured,
        ptr_at-done s₁ i₁ (offset / 4096) index_lt,
        load-done s₁ (ptr i₁ (offset / 4096)) at,
        store-done s₁ (ptr i₁ (offset / 4096))
            (overlay b (offset % 4096) (take (chunk_len len moved offset) buf)) ok,
      )
      refl
  where
    not_done : (moved == len) ≡ false
    not_done = ground (arith, lt)

-- What the loop leaves, from a state and an inode on.
abbrev pub LoopDone : (n : ℕ) → Fs → Inode → (fuel inum len moved offset left : ℕ) → Bytes → Type 0
LoopDone n s i fuel inum len moved offset left buf =
    (s' : Fs) × (i' : Inode) × (write_loop fuel i inum len moved offset buf s ≡ done len s')
    × Wrote n s s' i i' inum offset left buf

pub write_loop-Wrote :
    (fuel n : ℕ) (s : Fs) (i : Inode) (inum len moved offset left r : ℕ) (buf : Bytes)
    → IsOwner n s i inum
    → moved + left ≡ len
    → left < fuel
    → offset + left ≤ num_ptrs_inode * 4096
    → length buf ≡ left
    → (0 < left → offset + left ≤ (offset / 4096 + r) * 4096)
    → needed i (offset / 4096) r ≤ clear_below s.bitmap n
    → LoopDone n s i fuel inum len moved offset left buf
unfolding write_loop
write_loop-Wrote zero n s i inum len moved offset left r buf own e fuel bound size reach room =
    absurd (omega (arith, fuel))
write_loop-Wrote (suc f) n s i inum len moved offset zero r buf own e fuel bound size reach room =
    let same : moved ≡ len = omega (arith, e) in
    (s, i, rw ((==_iff moved len).1 same, same) refl, Wrote-none n s i inum offset buf own)
write_loop-Wrote (suc f) n s i inum len moved offset (suc left) zero buf own e fuel bound size reach
      room =
    absurd (omega (arith, reach (omega arith)))
write_loop-Wrote (suc f) n s i inum len moved offset (suc left) (suc r) buf own e fuel bound size
      reach room =
    let c = chunk_len len moved offset in
    let fits = chunk_len-ChunkFits len moved offset (omega (arith, e)) in
    let (i₁, s₁, ensured, ens) =
      ensure_block-Ensured n s i inum (offset / 4096) own (omega (arith, bound))
        (first_room n s i (offset / 4096) r room) in
    let lt : moved < len = omega (arith, e) in
    let rest : ℕ = suc left - c in
    let all : c + rest ≡ suc left = omega (arith, fits.left, e) in
    let d = ens.owner.blocks (offset / 4096) ens.there in
    let (b, at, whole) = d.whole in
    let cut : offset % 4096 + length (take c buf) ≤ 4096 =
      omega (arith, fits.inside, length-take c buf) in
    let s₂ = stored_at s₁ i₁ offset (take c buf) b in
    let (r', reach', room') =
      room_left n s s₁ i i₁ inum offset c rest r ens
        (elim (chunk_len_cases len moved offset lt) [
          | inl last ↦ inl (omega (arith, last, e))
          | inr full ↦ inr full
        ])
        (omega (arith, all, reach (omega arith))) room in
    let (s', i', ran, w) =
      write_loop-Wrote f n s₂ i₁ inum len (moved + c) (offset + c) rest r' (drop c buf)
        (stored-IsOwner n s₁ i₁ inum offset (take c buf) b ens.owner ens.there at whole cut)
        (omega (arith, all, e)) (omega (arith, all, fits.positive, fuel))
        (omega (arith, all, bound)) (length-drop c buf ∙ omega (arith, size)) reach' room' in
    let wrote =
      round-Wrote n s s₁ s' i i₁ i' inum offset c rest buf b own ens at whole (size ∙ sym all)
        fits.inside w in
    (
      s',
      i',
      round-done f s s₁ i i₁ inum len moved offset buf b lt ensured (omega (arith, bound)) at d.ok
          ∙ ran,
      subst (λ x. Wrote n s s' i i' inum offset x buf) all wrote,
    )
