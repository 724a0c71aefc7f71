-- ===== src/Asm/Walk.antt =====
-- What `m` of hw03-asm/main.c does along a list, when it prints and when it frees.
use otus_c_2025_3_kushko.Common.{
  ℕ, zero, suc, ◌<◌, ◌≡◌, ◌≢◌, refl, ap, sym, ◌∙◌, List, [], ◌∷◌, ◌++◌, append-nil, append_assoc,
  none, some, length, if◌then◌else◌, arith,
}
use otus_c_2025_3_kushko.Common.Int.{ℤ}
use otus_c_2025_3_kushko.Common.Decimal.{show_int}
use otus_c_2025_3_kushko.Asm.{State, ok, Action, print_int, free_element, m}
use otus_c_2025_3_kushko.Asm.Memory.{Heap, load, release, load-release}
use otus_c_2025_3_kushko.Asm.Chain.{Cells, Chain, Chain-frame, element, has}

-- What is printed of some values.
abbrev pub line : List ℤ → List ℕ
line [] = []
line (v ∷ vs) = show_int v ++ 32 ∷ line vs

abbrev pub values : Cells → List ℤ
values [] = []
values (x ∷ xs) = x.1 ∷ values xs

-- One round of `m`, when the action succeeds.
m-step :
    (fuel a : ℕ) (v : ℤ) (q : ℕ) (func : Action) (s s' : State)
    → a ≢ 0
    → load s.heap a ≡ some (element v q)
    → func a s ≡ ok tt s'
    → m (suc fuel) a func s ≡ m fuel q func s'
unfolding m
m-step fuel a v q func s s' n e r = ground (arith, e, r)

m-end : (fuel : ℕ) (func : Action) (s : State) → m (suc fuel) 0 func s ≡ ok tt s
unfolding m
m-end fuel func s = refl

print_int-element :
    (a : ℕ) (v : ℤ) (q : ℕ) (s : State)
    → load s.heap a ≡ some (element v q)
    → print_int a s ≡ ok tt (record s { out = s.out ++ (show_int v ++ 32 ∷ []) })
unfolding print_int
print_int-element a v q s e = ground (arith, e)

free_element-element :
    (a : ℕ) (v : ℤ) (q : ℕ) (s : State)
    → load s.heap a ≡ some (element v q)
    → free_element a s ≡ ok tt (record s { heap = release s.heap a })
unfolding free_element
free_element-element a v q s e = ground (arith, e)

pub m-print_int :
    (fuel p : ℕ) (xs : Cells) (s : State)
    → Chain s.heap p xs
    → length xs < fuel
    → m fuel p print_int s ≡ ok tt (record s { out = s.out ++ line (values xs) })
m-print_int zero p xs s c k = absurd (omega arith)
m-print_int (suc fuel) p [] s c k =
    ap (λ a. m (suc fuel) a print_int s) c
    ∙ m-end fuel print_int s
    ∙ ap (λ (o : List ℕ). ok tt (record s { out = o })) (sym (append-nil s.out))
m-print_int (suc fuel) p (x ∷ xs) s (here, some_addr, apart, (q, e, c)) k =
    let s' : State = record s { out = s.out ++ (show_int x.1 ++ 32 ∷ []) } in
    ap (λ a. m (suc fuel) a print_int s) here
    ∙ m-step fuel x.0 x.1 q print_int s s' some_addr e (print_int-element x.0 x.1 q s e)
    ∙ m-print_int fuel q xs s' c (omega arith)
    ∙ ap (λ (o : List ℕ). ok tt (record s { out = o }))
        (append_assoc s.out (show_int x.1 ++ 32 ∷ []) (line (values xs))
          ∙ ap (λ o. s.out ++ o) (append_assoc (show_int x.1) (32 ∷ []) (line (values xs))))

abbrev pub release_all : Heap → Cells → Heap
release_all h [] = h
release_all h (x ∷ xs) = release_all (release h x.0) xs

pub load-release_all :
    (h : Heap) (xs : Cells) (a : ℕ)
    → load (release_all h xs) a ≡ (if has xs a then none else load h a)
unfolding has
load-release_all h [] a = refl
load-release_all h (x ∷ xs) a =
    load-release_all (release h x.0) xs a ∙ ground (arith, load-release h x.0 a)

pub m-free_element :
    (fuel p : ℕ) (xs : Cells) (s : State)
    → Chain s.heap p xs
    → length xs < fuel
    → m fuel p free_element s ≡ ok tt (record s { heap = release_all s.heap xs })
m-free_element zero p xs s c k = absurd (omega arith)
m-free_element (suc fuel) p [] s c k =
    ap (λ a. m (suc fuel) a free_element s) c ∙ m-end fuel free_element s
m-free_element (suc fuel) p (x ∷ xs) s (here, some_addr, apart, (q, e, c)) k =
    let s' : State = record s { heap = release s.heap x.0 } in
    let spared =
      Chain-frame s.heap s'.heap q xs c
        (λ a i. load-release s.heap x.0 a ∙ ground (arith, i, apart)) in
    ap (λ a. m (suc fuel) a free_element s) here
    ∙ m-step fuel x.0 x.1 q free_element s s' some_addr e (free_element-element x.0 x.1 q s e)
    ∙ m-free_element fuel q xs s' spared (omega arith)
