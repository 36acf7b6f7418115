-- ===== src/Static/Padding.antt =====
-- `_left_pad` and the prefill of `generate` of engine.py on the dense backend of contiguous.py.
use paged_serve.Prelude.{
  ℕ, zero, suc, ◌+◌, ◌-◌, ◌≤◌, ◌<◌, ◌≡◌, refl, sym, ap, ◌∙◌, arith, Bool, true, false, List, [],
  ◌∷◌, ◌++◌, some, length, take, drop, get_elem?, map, leb, ok,
}
use paged_serve.BlockManager.{range_from}
use paged_serve.Engine.{longest}
use paged_serve.Attention.{key_len}
use paged_serve.Attention.Contiguous.{Dense, DenseLayer, DenseMetadata, begin_step, forward}
use paged_serve.Attention.Assign.{Shaped, Assigned}
use paged_serve.Attention.Dense.{left_padded, get_elem?-map_list, forward-DenseAttends}
use paged_serve.Attention.{unmasked}
use paged_serve.Static.{falses, trues, left_pad_row, left_pad, prefill_step}

take_all_true :
    (t k l : ℕ) (rest : List Bool)
    → t ≤ k
    → take l (trues l ++ rest) ≡ map (λ key. leb t key) (range_from k l)
take_all_true t k zero rest h = refl
take_all_true t k (suc l) rest h =
    let here : leb t k ≡ true = ground (arith, h) in
    rw here (ap (λ xs. true ∷ xs) (take_all_true t (suc k) l rest (omega (arith, h))))

take_padded :
    (k p l : ℕ) (rest : List Bool) (t : ℕ)
    → t ≡ k + p
    → take (p + l) (falses p ++ (trues l ++ rest)) ≡ map (λ key. leb t key) (range_from k (p + l))
take_padded k zero l rest t h =
    let none_ : 0 + l ≡ l = omega arith in rw none_ (take_all_true t k l rest (omega (arith, h)))
take_padded k (suc p) l rest t h =
    let one : suc p + l ≡ suc (p + l) = omega arith in
    let here : leb t k ≡ false = ground (arith, h) in
    rw (one, here) (ap (λ xs. false ∷ xs) (take_padded (suc k) p l rest t (omega (arith, h))))

take_twice : {A : Type 0} (n : ℕ) (xs : List A) → take n (take n xs) ≡ take n xs
take_twice zero xs = refl
take_twice (suc n) [] = refl
take_twice (suc n) (x ∷ xs) = ap (λ l. x ∷ l) (take_twice n xs)

mask_left_padded :
    (width cache_len : ℕ) (ids : List ℕ)
    → length ids ≤ width
    → take width (take width (left_pad_row width cache_len ids).padding_mask)
      ≡ left_padded (width - length ids) width
mask_left_padded width cache_len ids fits =
    let start = width - length ids in
    let all : start + length ids ≡ width = omega (arith, fits) in
    take_twice width (left_pad_row width cache_len ids).padding_mask
    ∙ ap (λ w. take w (left_pad_row width cache_len ids).padding_mask) (sym all)
    ∙ take_padded 0 start (length ids) (falses (cache_len - width)) start (omega arith)
    ∙ ap (λ w. left_padded start w) all

masks_left_padded :
    (width cache_len : ℕ) (prompts : List (List ℕ))
    → longest prompts ≤ width
    → map
        (take width)
        (map (λ row. take width row.padding_mask) (map (left_pad_row width cache_len) prompts))
      ≡ map (λ pad. left_padded pad width) (map (λ ids. width - length ids) prompts)
unfolding longest
masks_left_padded width cache_len [] fits = refl
masks_left_padded width cache_len (ids ∷ prompts) fits =
    ap
      (λ x.
        x
        ∷ map (take width)
            (map (λ row. take width row.padding_mask) (map (left_pad_row width cache_len) prompts)))
      (mask_left_padded width cache_len ids (omega (arith, fits)))
    ∙ ap (λ xs. left_padded (width - length ids) width ∷ xs)
        (masks_left_padded width cache_len prompts (omega (arith, fits)))

step-masks :
    (cache_len : ℕ) (prompts : List (List ℕ))
    → let step = prefill_step (longest prompts) (left_pad prompts cache_len) in
      map (take (key_len step)) step.padding_mask
      ≡ map
          (λ pad. left_padded pad (key_len step))
          (map (λ ids. longest prompts - length ids) prompts)
unfolding prefill_step left_pad key_len
step-masks cache_len prompts =
    let width : 0 + longest prompts ≡ longest prompts = omega arith in
    rw width (masks_left_padded (longest prompts) cache_len prompts (omega arith))

step-key_len :
    (cache_len : ℕ) (prompts : List (List ℕ))
    → key_len (prefill_step (longest prompts) (left_pad prompts cache_len)) ≡ longest prompts
unfolding prefill_step key_len
step-key_len cache_len prompts = omega arith

-- A plane whose positions from `s` on have the rows of a list.
map-take :
    {R : Type 0} (plane : ℕ → R) (xs : List R) (s n : ℕ)
    → ((j : ℕ) (x : R) → get_elem? xs j ≡ some x → plane (s + j) ≡ x)
    → n ≤ length xs
    → map plane (range_from s n) ≡ take n xs
map-take plane xs s zero h fits = refl
map-take plane [] s (suc n) h fits = absurd (omega arith)
map-take plane (x ∷ xs) s (suc n) h fits =
    let here : s + 0 ≡ s = omega arith in
    ap (λ k. plane k ∷ map plane (range_from (suc s) n)) (sym here)
    ∙ ap (λ y. y ∷ map plane (range_from (suc s) n)) (h 0 x refl)
    ∙ ap (λ l. x ∷ l)
        (map-take plane xs (suc s) n
          (λ j y e. let next : suc s + j ≡ s + suc j = omega arith in ap plane next ∙ h (suc j) y e)
          (omega arith))

get_elem?-drop :
    {R : Type 0} (xs : List R) (n j : ℕ) → get_elem? (drop n xs) j ≡ get_elem? xs (n + j)
get_elem?-drop xs zero j = let here : 0 + j ≡ j = omega arith in rw here refl
get_elem?-drop [] (suc n) j = refl
get_elem?-drop (x ∷ xs) (suc n) j =
    let next : suc n + j ≡ suc (n + j) = omega arith in rw next (get_elem?-drop xs n j)

length-drop : {R : Type 0} (xs : List R) (n : ℕ) → length (drop n xs) ≡ length xs - n
length-drop xs zero = omega arith
length-drop [] (suc n) = omega arith
length-drop (x ∷ xs) (suc n) = omega (arith, length-drop xs n)

-- The rows of a sequence from the first real token on, as they were assigned.
map-Assigned :
    {R : Type 0} (width : ℕ) (rows : List (List R)) (old new : ℕ → ℕ → R) (r pad n : ℕ)
    {xs : List R}
    → Assigned 0 width rows old new
    → get_elem? rows r ≡ some xs
    → pad + n ≤ length xs
    → map (new r) (range_from pad n) ≡ take n (drop pad xs)
map-Assigned width rows old new r pad n {xs} h e fits =
    map-take (new r) (drop pad xs) pad n
      (λ j x f.
        let zero_ : 0 + (pad + j) ≡ pad + j = omega arith in
        ap (new r) (sym zero_) ∙ h.inside r (pad + j) xs x e (sym (get_elem?-drop xs pad j) ∙ f))
      (omega (arith, length-drop xs pad, fits))

-- The padding of a prompt.
abbrev pub pad_of : List (List ℕ) → List ℕ → ℕ
pad_of prompts ids = longest prompts - length ids

-- What each query of a real token attends to: the K and V rows of its own prompt, from the first
-- real token up to its own, in order.
abbrev pub PromptAttends :
    {Q R O : Type 0}
    → (Q → List R → List R → O)
    → List (List ℕ)
    → List (List Q)
    → List (List R)
    → List (List R)
    → List (List O)
    → Type 0
PromptAttends {Q} {R} {O} attend prompts query key value out =
    (r i : ℕ) (ids : List ℕ) (qs : List Q) (q : Q) (ks vs : List R)
    → get_elem? prompts r ≡ some ids
    → get_elem? query r ≡ some qs
    → get_elem? key r ≡ some ks
    → get_elem? value r ≡ some vs
    → get_elem? qs i ≡ some q
    → i < longest prompts
    → pad_of prompts ids ≤ i
    → let pad = pad_of prompts ids in
      let n = i + 1 - pad in
      (os : List O) × (get_elem? out r ≡ some os)
      × (get_elem? os i ≡ some (attend q (take n (drop pad ks)) (take n (drop pad vs))))

module _ {Q R O : Type 0} (sdpa : Q → List R → List R → List Bool → O)
    (attend : Q → List R → List R → O)
    (masked_out : (q : Q) (ks vs : List R) (mask : List Bool)
      → 0 < length (unmasked mask ks)
      → sdpa q ks vs mask ≡ attend q (unmasked mask ks) (unmasked mask vs)) where
  -- Let the attention of one query depend only on the keys and values that its mask allows, if
  -- there are any. Take prompts that `_left_pad` has padded, the prefill step of `generate`, an
  -- allocated dense cache with positions for the longest prompt and enough slots, and K and V
  -- with a row for each sequence of the batch and padded position. Then `begin_step` and
  -- `forward` do not raise. Each query of a real token attends to exactly the rows of K and V
  -- that were given for its own prompt, from the first real token up to its own, in order, and to
  -- no padding, whatever the cache held before.
  pub prefill_step-PromptAttends :
      (prompts : List (List ℕ)) (cache_len layer_idx : ℕ) (query : List (List Q))
      (key value : List (List R)) (cache : ℕ → DenseLayer R) (b : Dense R)
      → b.kv_cache ≡ some cache
      → longest prompts ≤ b.max_seq_len
      → length query ≤ b.num_seq_slots
      → Shaped (length query) (longest prompts) key
      → Shaped (length query) (longest prompts) value
      → (md : DenseMetadata) × (out : List (List O)) × (b1 : Dense R) × (b2 : Dense R) × (begin_step
            (prefill_step (longest prompts) (left_pad prompts cache_len))
            b
          ≡ (ok md, b1))
        × (forward sdpa layer_idx query key value md b1 ≡ (ok out, b2))
        × PromptAttends attend prompts query key value out
  unfolding prefill_step
  prefill_step-PromptAttends prompts cache_len layer_idx query key value cache b held fits slots
        key_shape value_shape =
      let width = longest prompts in
      let (md, out, b1, b2, cache', begun, ran, held', others, ks_at, vs_at, seen) =
        forward-DenseAttends sdpa attend masked_out
          (prefill_step width (left_pad prompts cache_len)) (map (pad_of prompts) prompts)
          (step-masks cache_len prompts) layer_idx query key value cache b held
          (omega (arith, step-key_len cache_len prompts, fits)) slots key_shape value_shape in
      (
        md,
        out,
        b1,
        b2,
        begun,
        ran,
        λ r i ids qs q ks vs at_ids at_qs at_ks at_vs at_q lt real.
            let pad = pad_of prompts ids in
            let n = i + 1 - pad in
            let same : 0 + i + 1 - pad ≡ n = omega arith in
            let (os, at_os, answer) =
              seen r i pad qs q (get_elem?-map_list (pad_of prompts) prompts r at_ids) at_qs at_q lt
                (omega (arith, real)) in
            (
              os,
              at_os,
              answer
                  ∙ ap
                      (λ m. some (
                        attend q (map ((cache' layer_idx).keys r) (range_from pad m))
                          (map ((cache' layer_idx).values r) (range_from pad m))))
                      same
                  ∙ ap
                      (λ l.
                        some (attend q l (map ((cache' layer_idx).values r) (range_from pad n))))
                      (map-Assigned width key (cache layer_idx).keys (cache' layer_idx).keys r pad n
                        ks_at at_ks (omega (arith, key_shape.1 r ks at_ks, lt, real)))
                  ∙ ap (λ l. some (attend q (take n (drop pad ks)) l))
                      (map-Assigned width value (cache layer_idx).values (cache' layer_idx).values r
                        pad n vs_at at_vs (omega (arith, value_shape.1 r vs at_vs, lt, real))),
            ),
      )
