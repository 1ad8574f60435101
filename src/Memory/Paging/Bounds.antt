-- ===== src/Memory/Paging/Bounds.antt =====
-- The order of a page's indices and its slice (storage/store/memory/util.go), with overflow.
use gatus.Prelude.{
  ℕ, zero, suc, ◌+◌, ◌<◌, ◌≡◌, ◌≢◌, none, List, ℤ, pos, negsuc, length, pos_part, neg_part, wrap_64,
  half_64, Is64, arith, mul_64, sub_64, wrap_64-Is64, ◌*ℤ◌, ◌-ℤ◌, ◌≤ℤ◌, -ℤ_parts, wrap_64_parts,
}
use gatus.Memory.Paging.{get_start_and_end_index, slice, page_slice}

-- With `a` wrapped to `m`, n - m wrapped to `s`, and the same for `b`, which is `k` below `a`.
wrapped_order :
    (n k : ℕ) (a b : ℤ)
    → n < half_64
    → k < half_64
    → pos_part a + neg_part b ≡ neg_part a + pos_part b + k
    → let s = wrap_64 (pos n -ℤ wrap_64 a) in
      let e = wrap_64 (pos n -ℤ wrap_64 b) in pos 0 ≤ℤ s → s ≤ℤ pos n → pos 0 ≤ℤ e → s ≤ℤ e
wrapped_order n k a b hn hk h hs hsn he =
    let (qa, ra, ea) = wrap_64_parts a in
    let (qb, rb, eb) = wrap_64_parts b in
    let (qs, rs, es) = wrap_64_parts (pos n -ℤ wrap_64 a) in
    let (qe, re, ee) = wrap_64_parts (pos n -ℤ wrap_64 b) in
    omega (
      arith,
      ea,
      eb,
      es,
      ee,
      -ℤ_parts (pos n) (wrap_64 a),
      -ℤ_parts (pos n) (wrap_64 b),
      wrap_64-Is64 (pos n -ℤ wrap_64 a),
      wrap_64-Is64 (pos n -ℤ wrap_64 b),
    )

-- The page before covers `k` more of the list.
products :
    (p k : ℕ)
    → pos_part (pos (suc p) *ℤ pos k) + neg_part (pos p *ℤ pos k)
      ≡ neg_part (pos (suc p) *ℤ pos k) + pos_part (pos p *ℤ pos k) + k
unfolding ◌*ℤ◌
products p k = ground arith

sub_one : (p : ℕ) → suc p < half_64 → sub_64 (pos (suc p)) (pos 1) ≡ pos p
unfolding sub_64
sub_one p h = ground arith

raw_order :
    (n p k : ℕ)
    → n < half_64
    → k < half_64
    → let start = sub_64 (pos n) (mul_64 (pos (suc p)) (pos k)) in
      let end = sub_64 (pos n) (mul_64 (pos p) (pos k)) in
      pos 0 ≤ℤ start → start ≤ℤ pos n → pos 0 ≤ℤ end → start ≤ℤ end
unfolding sub_64 mul_64
raw_order n p k hn hk =
    wrapped_order n k (pos (suc p) *ℤ pos k) (pos p *ℤ pos k) hn hk (products p k)

-- The two indices, unless one of them is negative, are in order and within the results, for every
-- page and page size that an int can hold: also where page * pageSize overflows.
pub indices_in_order :
    (n : ℕ) (page page_size : ℤ)
    → n < half_64
    → Is64 page
    → Is64 page_size
    → let (start, end) = get_start_and_end_index n page page_size in
      pos 0 ≤ℤ start → pos 0 ≤ℤ end → (start ≤ℤ end) × (end ≤ℤ pos n)
unfolding get_start_and_end_index
indices_in_order n (negsuc p) page_size hn hp hk hs he = ground arith
indices_in_order n (pos zero) page_size hn hp hk hs he = ground arith
indices_in_order n (pos (suc p)) (negsuc k) hn hp hk hs he = ground arith
indices_in_order n (pos (suc p)) (pos k) hn hp hk hs he =
    ground (arith, raw_order n p k hn hk.high, sub_one p hp.high)

-- The slice for a page never panics, for every page and page size that an int can hold.
pub page_slice-ne-none :
    {A : Type 0} (xs : List A) (page page_size : ℤ)
    → length xs < half_64
    → Is64 page
    → Is64 page_size
    → page_slice xs page page_size ≢ none
unfolding page_slice slice
page_slice-ne-none xs page page_size hn hp hk h =
    ground (arith, indices_in_order (length xs) page page_size hn hp hk)
