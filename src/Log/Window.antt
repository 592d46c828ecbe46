-- ===== src/Log/Window.antt =====
-- src/log_buffer.c: a copy into or out of the ring is one `memcpy`, or two where it runs over the
-- end. Both are read here against the bytes of a window that goes round.
use native.Mathlib.Nat.{mod-lt, mod-eq_of_lt, mod-eq-sub-mod, mod-add-mod}
use rdma_middleware.Prelude.{
  ℕ, zero, suc, ◌+◌, ◌-◌, ◌%◌, ◌≤◌, ◌<◌, ◌≡◌, refl, ap, sym, ◌∙◌, Bool-cases, inl, inr, List, [],
  ◌∷◌, ◌++◌, length, get_or, take, drop, length-append, length-take, length-drop, get_or-append,
  get_or-take, get_or-drop, list_ext, arith, if◌then◌else◌, ltb, leb,
}
use rdma_middleware.Prelude.Memory.{write_at, read_at, length-write_at, get_or-write_at}

-- Copying into the ring at `pos`, as `rb_write_data` does.
unfoldable pub copy_in : ℕ → List ℕ → ℕ → List ℕ → List ℕ
copy_in size buf pos src =
    if ltb size (pos + length src)
    then (let left = size - pos in write_at (write_at buf pos (take left src)) 0 (drop left src))
    else write_at buf pos src

-- Copying out of the ring from `pos`, as `rb_read` does.
unfoldable pub copy_out : ℕ → List ℕ → ℕ → ℕ → List ℕ
copy_out size buf pos len =
    if ltb size (pos + len)
    then (let left = size - pos in read_at buf pos left ++ read_at buf 0 (len - left))
    else read_at buf pos len

-- The `n` bytes from position `pos` on, going round at `size`.
abbrev pub window : ℕ → List ℕ → ℕ → ℕ → List ℕ
window size buf pos zero = []
window size buf pos (suc n) = get_or buf (pos % size) 0 ∷ window size buf (suc pos) n

pub length-window : (size : ℕ) (buf : List ℕ) (pos n : ℕ) → length (window size buf pos n) ≡ n
length-window size buf pos zero = refl
length-window size buf pos (suc n) = ap suc (length-window size buf (suc pos) n)

pub get_or-window :
    (size : ℕ) (buf : List ℕ) (pos n i : ℕ)
    → i < n
    → get_or (window size buf pos n) i 0 ≡ get_or buf ((pos + i) % size) 0
get_or-window size buf pos zero i h = absurd (omega arith)
get_or-window size buf pos (suc n) zero h =
    let e : pos ≡ pos + 0 = omega arith in ap (λ t. get_or buf (t % size) 0) e
get_or-window size buf pos (suc n) (suc i) h =
    let e : suc pos + i ≡ pos + suc i = omega arith in
    get_or-window size buf (suc pos) n i (omega arith) ∙ ap (λ t. get_or buf (t % size) 0) e

-- Positions that name one place have one window.
pub window_cong :
    (size : ℕ) (buf : List ℕ) (p q n : ℕ)
    → ((i : ℕ) → i < n → (p + i) % size ≡ (q + i) % size)
    → window size buf p n ≡ window size buf q n
window_cong size buf p q n h =
    list_ext (window size buf p n) (window size buf q n) 0
      (length-window size buf p n ∙ sym (length-window size buf q n))
      (λ i k.
        let k' : i < n = omega (arith, length-window size buf q n) in
        get_or-window size buf p n i k'
        ∙ ap (λ t. get_or buf t 0) (h i k')
        ∙ sym (get_or-window size buf q n i k'))

pub mod_twice : (x size : ℕ) → x < size + size → x % size ≡ (if ltb x size then x else x - size)
mod_twice x size h = elim (Bool-cases (ltb x size)) [
  | inl e ↦ rw e (mod-eq_of_lt (ground arith))
  | inr e ↦ rw e (
      mod-eq-sub-mod {n = x} {m = size} (ground arith)
      ∙ mod-eq_of_lt {n = x - size} {m = size} (ground arith))
]

-- How far `j` lies behind `pos`, going round.
abbrev pub offset : ℕ → ℕ → ℕ → ℕ
offset size pos j = if leb pos j then j - pos else j + size - pos

module _ (size : ℕ) (buf : List ℕ) (wide : length buf ≡ size) where
  pub length-copy_in : (pos : ℕ) (src : List ℕ) → length (copy_in size buf pos src) ≡ size
  unfolding copy_in
  length-copy_in pos src = ground (
    arith,
    length-write_at buf pos src,
    length-write_at buf pos (take (size - pos) src),
    length-write_at (write_at buf pos (take (size - pos) src)) 0 (drop (size - pos) src),
  )

  -- A copied byte stands where its offset says; every other byte of the ring is as before.
  pub get_or-copy_in :
      (pos : ℕ) (src : List ℕ) (j : ℕ)
      → pos ≤ size
      → length src ≤ size
      → j < size
      → get_or (copy_in size buf pos src) j 0 ≡ (
          if ltb (offset size pos j) (length src)
          then get_or src (offset size pos j) 0
          else get_or buf j 0)
  unfolding copy_in
  get_or-copy_in pos src j hp hs hj =
      let left = size - pos in
      ground (
        arith,
        get_or-write_at buf pos src j,
        get_or-write_at buf pos (take left src) j,
        get_or-write_at (write_at buf pos (take left src)) 0 (drop left src) j,
        length-write_at buf pos (take left src),
        length-take left src,
        length-drop left src,
        get_or-take left src (j - pos) 0,
        get_or-drop left src j 0,
      )

  length-copy_out :
      (pos len : ℕ) → pos ≤ size → len ≤ size → length (copy_out size buf pos len) ≡ len
  unfolding copy_out
  length-copy_out pos len hp hl =
      let left = size - pos in
      ground (
        arith,
        length-append (read_at buf pos left) (read_at buf 0 (len - left)),
        length-take left (drop pos buf),
        length-take (len - left) buf,
        length-take len (drop pos buf),
        length-drop pos buf,
      )

  get_or-copy_out :
      (pos len i : ℕ)
      → pos ≤ size
      → len ≤ size
      → i < len
      → get_or (copy_out size buf pos len) i 0 ≡ get_or buf ((pos + i) % size) 0
  unfolding copy_out
  get_or-copy_out pos len i hp hl hi =
      let left = size - pos in
      ground (
        arith,
        get_or-append (read_at buf pos left) (read_at buf 0 (len - left)) i 0,
        length-take left (drop pos buf),
        length-drop pos buf,
        get_or-take left (drop pos buf) i 0,
        get_or-take (len - left) buf (i - left) 0,
        get_or-take len (drop pos buf) i 0,
        get_or-drop pos buf i 0,
        mod_twice (pos + i) size (omega arith),
      )

  -- Copying out gives the window.
  pub copy_out_lem :
      (pos len : ℕ) → pos ≤ size → len ≤ size → copy_out size buf pos len ≡ window size buf pos len
  copy_out_lem pos len hp hl =
      list_ext (copy_out size buf pos len) (window size buf pos len) 0
        (length-copy_out pos len hp hl ∙ sym (length-window size buf pos len))
        (λ i k.
          let k' : i < len = omega (arith, length-window size buf pos len) in
          get_or-copy_out pos len i hp hl k' ∙ sym (get_or-window size buf pos len i k'))

  -- The window that a copy filled holds the source.
  pub window-copy_in_self :
      (pos : ℕ) (src : List ℕ)
      → pos ≤ size
      → length src ≤ size
      → window size (copy_in size buf pos src) pos (length src) ≡ src
  window-copy_in_self pos src hp hs =
      let new = copy_in size buf pos src in
      list_ext (window size new pos (length src)) src 0 (length-window size new pos (length src))
        (λ i k.
          let at : (pos + i) % size ≡ (if ltb (pos + i) size then pos + i else pos + i - size) =
            mod_twice (pos + i) size (omega arith) in
          let inside : (pos + i) % size < size = ground arith in
          get_or-window size new pos (length src) i k
          ∙ get_or-copy_in pos src ((pos + i) % size) hp hs inside
          ∙ ground arith)

  -- A window of `n` bytes that starts `d` bytes before the copied ones and ends there at the latest
  -- is not touched, if both fit into the ring.
  pub window-copy_in_before :
      (pos q d n : ℕ) (src : List ℕ)
      → pos ≤ size
      → q ≤ size
      → n ≤ d
      → d < size
      → length src + d ≤ size
      → pos % size ≡ (q + d) % size
      → window size (copy_in size buf pos src) q n ≡ window size buf q n
  window-copy_in_before pos q d n src hp hq hn short fits same =
      let new = copy_in size buf pos src in
      list_ext (window size new q n) (window size buf q n) 0
        (length-window size new q n ∙ sym (length-window size buf q n))
        (λ i k.
          let k' : i < n = omega (arith, length-window size buf q n) in
          let inside : (q + i) % size < size = mod-lt (q + i) (omega arith) in
          get_or-window size new q n i k'
          ∙ get_or-copy_in pos src ((q + i) % size) hp (omega arith) inside
          ∙ untouched i k'
          ∙ sym (get_or-window size buf q n i k'))
    where
      untouched :
          (i : ℕ)
          → i < n
          → (if ltb (offset size pos ((q + i) % size)) (length src)
              then get_or src (offset size pos ((q + i) % size)) 0
              else get_or buf ((q + i) % size) 0)
            ≡ get_or buf ((q + i) % size) 0
      untouched i k = ground (
        arith,
        mod_twice (q + i) size (omega arith),
        mod_twice (q + d) size (omega arith),
        mod_twice pos size (omega arith),
      )

pub window-append :
    (size : ℕ) (buf : List ℕ) (pos a b : ℕ)
    → window size buf pos (a + b) ≡ window size buf pos a ++ window size buf (pos + a) b
window-append size buf pos zero b =
    let e : 0 + b ≡ b = omega arith in let e' : pos + 0 ≡ pos = omega arith in rw (e, e')
window-append size buf pos (suc a) b =
    let e : suc a + b ≡ suc (a + b) = omega arith in
    let e' : suc pos + a ≡ pos + suc a = omega arith in
    rw (e, window-append size buf (suc pos) a b, e')

pub mod_shift : (p q i size : ℕ) → p % size ≡ q % size → (p + i) % size ≡ (q + i) % size
mod_shift p q i size h =
    sym (mod-add-mod p size i) ∙ ap (λ t. (t + i) % size) h ∙ mod-add-mod q size i

-- Only the place counts that a position names.
pub window_shift :
    (size : ℕ) (buf : List ℕ) (p q n : ℕ)
    → p % size ≡ q % size
    → window size buf p n ≡ window size buf q n
window_shift size buf p q n h = window_cong size buf p q n (λ i k. mod_shift p q i size h)
