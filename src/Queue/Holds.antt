-- ===== src/Queue/Holds.antt =====
-- What the queue of lab1-TheCarton-main/part2/queue.c keeps on the heap, as a list of words.
use systems_projects.Base.{
  ℕ, ◌≡◌, ◌≢◌, refl, ap, ◌∙◌, sym, Option, none, some, List, [], ◌∷◌, ◌++◌, Bytes, arith,
}
use systems_projects.Queue.{Heap, fetch, Node, Queue, put}

-- A node of the queue: its address, and the address and the text of its string.
pub record Cell : Type 0 where
  pub at : ℕ
  pub data_at : ℕ
  pub word : Bytes

-- Where the list begins, if `end` follows it.
abbrev pub first : List Cell → Option ℕ → Option ℕ
first [] end = end
first (c ∷ cs) end = some c.at

abbrev pub node_of : Cell → Option ℕ → Node
node_of c next = record { next = next; data_at = some c.data_at }

abbrev pub last_of : List Cell → Option ℕ
last_of [] = none
last_of (c ∷ []) = some c.at
last_of (c ∷ d ∷ cs) = last_of (d ∷ cs)

-- No cell of the list has an address of `c`.
abbrev pub Apart : Cell → List Cell → Type 0
Apart c [] = Prim.Unit {0}
Apart c (d ∷ cs) = (c.at ≢ d.at) × (c.data_at ≢ d.data_at) × Apart c cs

-- The nodes, with their strings, one behind the other; behind the last comes `end`.
abbrev pub Stored : Heap Node → Heap Bytes → List Cell → Option ℕ → Type 0
Stored nodes strings [] end = Prim.Unit {0}
Stored nodes strings (c ∷ cs) end =
    (fetch nodes c.at ≡ some (node_of c (first cs end)))
    × (fetch strings c.data_at ≡ some c.word)
    × Apart c cs
    × Stored nodes strings cs end

abbrev pub words_of : List Cell → List Bytes
words_of [] = []
words_of (c ∷ cs) = c.word ∷ words_of cs

-- The queue holds these cells, in this order.
pub record Holds (q : Queue) (cells : List Cell) : Type 0 where
  pub head : q.head ≡ first cells none
  pub tail : cells ≢ [] → q.tail ≡ last_of cells
  pub stored : Stored q.nodes q.strings cells none

pub put_self : {A : Type 0} (m : Heap A) (a : ℕ) (v : Option A) → fetch (put m a v) a ≡ v
unfolding fetch
put_self m a v = ground arith

pub put_ne :
    {A : Type 0} (m : Heap A) (a x : ℕ) (v : Option A) → x ≢ a → fetch (put m a v) x ≡ fetch m x
unfolding fetch
put_ne m a x v ne = ground arith

-- Addresses that no cell has.
abbrev pub Unused : (at data_at : ℕ) → List Cell → Type 0
Unused a d [] = Prim.Unit {0}
Unused a d (c ∷ cs) = (c.at ≢ a) × (c.data_at ≢ d) × Unused a d cs

-- What is stored stays when other addresses change.
pub Stored-put :
    (nodes : Heap Node) (strings : Heap Bytes) (cells : List Cell) (end : Option ℕ) (a d : ℕ)
    (v : Option Node) (w : Option Bytes)
    → Unused a d cells
    → Stored nodes strings cells end
    → Stored (put nodes a v) (put strings d w) cells end
Stored-put nodes strings [] end a d v w un st = tt
Stored-put nodes strings (c ∷ cs) end a d v w un st = (
  put_ne nodes a c.at v un.0 ∙ st.0,
  put_ne strings d c.data_at w un.1 ∙ st.1,
  st.2,
  Stored-put nodes strings cs end a d v w un.2 st.3,
)

clash : {A : Type 0} {x : A} → some x ≡ none → ⊥
clash e = absurd (cc)

-- Addresses of blocks that are not allocated are no cell's.
pub Stored-Unused :
    (nodes : Heap Node) (strings : Heap Bytes) (cells : List Cell) (end : Option ℕ) (a d : ℕ)
    → fetch nodes a ≡ none
    → fetch strings d ≡ none
    → Stored nodes strings cells end
    → Unused a d cells
Stored-Unused nodes strings [] end a d no_node no_string st = tt
Stored-Unused nodes strings (c ∷ cs) end a d no_node no_string st = (
  λ e. clash (sym st.0 ∙ (ap (fetch nodes) e ∙ no_node)),
  λ e. clash (sym st.1 ∙ (ap (fetch strings) e ∙ no_string)),
  Stored-Unused nodes strings cs end a d no_node no_string st.3,
)

pub Apart-Unused : (c : Cell) (cells : List Cell) → Apart c cells → Unused c.at c.data_at cells
Apart-Unused c [] away = tt
Apart-Unused c (d ∷ cs) away = (λ e. away.0 (sym e), λ e. away.1 (sym e), Apart-Unused c cs away.2)

pub Apart-append :
    (c new : Cell) (cells : List Cell)
    → Apart c cells
    → c.at ≢ new.at
    → c.data_at ≢ new.data_at
    → Apart c (cells ++ new ∷ [])
Apart-append c new [] away ne ne' = (ne, ne', tt)
Apart-append c new (d ∷ cs) away ne ne' = (away.0, away.1, Apart-append c new cs away.2 ne ne')

pub last_of-append : (cells : List Cell) (c : Cell) → last_of (cells ++ c ∷ []) ≡ some c.at
last_of-append [] c = refl
last_of-append (x ∷ []) c = refl
last_of-append (x ∷ y ∷ ys) c = last_of-append (y ∷ ys) c

pub words_of-append :
    (cells : List Cell) (c : Cell) → words_of (cells ++ c ∷ []) ≡ words_of cells ++ c.word ∷ []
words_of-append [] c = refl
words_of-append (d ∷ cs) c = ap (◌∷◌ d.word) (words_of-append cs c)

-- The cell that is the last of a list that is not empty.
pub last_cell : (c : Cell) (cells : List Cell) → (l : Cell) × (last_of (c ∷ cells) ≡ some l.at)
last_cell c [] = (c, refl)
last_cell c (d ∷ cs) = last_cell d cs
