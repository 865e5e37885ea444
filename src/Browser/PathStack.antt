-- ===== src/Browser/PathStack.antt =====
-- The stack of folders that is open, in file-manager-page.js, with its root first.
use streaming_service.Base.{
  List, Option, [], ap, arith, length, none, refl, some, suc, sym, take, zero, ℕ, ◌++◌, ◌+◌, ◌-◌,
  ◌<◌, ◌∙◌, ◌∷◌, ◌≡◌, ◌≤◌,
}
use streaming_service.Base.Text.{Text, codes}

pub record PathNode : Type 0 where
  pub id : Option Text
  pub name : Text

-- `getCurrentPath`
unfoldable pub current_path : List PathNode → Option PathNode
current_path [] = none
current_path (n ∷ []) = some n
current_path (n ∷ m ∷ rest) = current_path (m ∷ rest)

-- `getFullCurrentPath`
unfoldable pub full_current_path : List PathNode → Text
full_current_path [] = []
full_current_path (n ∷ rest) = n.name ++ (codes "/" ++ full_current_path rest)

-- `item.id` in a text: null is written out.
abbrev pub id_text : Option Text → Text
id_text none = codes "null"
id_text (some i) = i

-- `getFullCurrentPathInIds`
unfoldable pub full_current_path_in_ids : List PathNode → Text
full_current_path_in_ids [] = []
full_current_path_in_ids (n ∷ rest) = id_text n.id ++ (codes "/" ++ full_current_path_in_ids rest)

-- `currentPathStack.pop()`
unfoldable pub pop_path : List PathNode → List PathNode
pop_path [] = []
pop_path (n ∷ []) = []
pop_path (n ∷ m ∷ rest) = n ∷ pop_path (m ∷ rest)

-- `addToCurrentPath`
unfoldable pub push_path : List PathNode → Option Text → Text → List PathNode
push_path stack id name = stack ++ (record { id = id; name = name }) ∷ []

-- The loops that pop a number of folders: a click on a folder of the path bar, and `clearPathStack`.
unfoldable pub pop_times : ℕ → List PathNode → List PathNode
unfolding pop_path
pop_times zero stack = stack
pop_times (suc n) stack = pop_times n (pop_path stack)

-- A click on the folder at an index of the path bar pops all that stand behind it.
unfoldable pub cut_path : List PathNode → ℕ → List PathNode
unfolding pop_times
cut_path stack index = pop_times (length stack - (index + 1)) stack

unfoldable pub clear_path : List PathNode → List PathNode
unfolding pop_times
clear_path stack = pop_times (length stack) stack

pub current_path-push_path :
    (stack : List PathNode) (id : Option Text) (name : Text)
    → current_path (push_path stack id name) ≡ some (record { id = id; name = name })
unfolding current_path push_path
current_path-push_path [] id name = refl
current_path-push_path (n ∷ []) id name = refl
current_path-push_path (n ∷ m ∷ rest) id name = current_path-push_path (m ∷ rest) id name

-- Entering a folder and going back restores the stack.
pub pop_path-push_path :
    (stack : List PathNode) (id : Option Text) (name : Text)
    → pop_path (push_path stack id name) ≡ stack
unfolding pop_path push_path
pop_path-push_path [] id name = refl
pop_path-push_path (n ∷ []) id name = refl
pop_path-push_path (n ∷ m ∷ rest) id name = ap (n ∷◌) (pop_path-push_path (m ∷ rest) id name)

length-pop_path : (stack : List PathNode) → length (pop_path stack) ≡ length stack - 1
unfolding pop_path
length-pop_path [] = refl
length-pop_path (n ∷ []) = refl
length-pop_path (n ∷ m ∷ rest) = omega (arith, length-pop_path (m ∷ rest))

take-pop_path :
    (k : ℕ) (stack : List PathNode) → k < length stack → take k (pop_path stack) ≡ take k stack
unfolding pop_path
take-pop_path k [] h = absurd (omega arith)
take-pop_path zero (n ∷ []) h = refl
take-pop_path (suc k) (n ∷ []) h = absurd (omega arith)
take-pop_path zero (n ∷ m ∷ rest) h = refl
take-pop_path (suc k) (n ∷ m ∷ rest) h = ap (n ∷◌) (take-pop_path k (m ∷ rest) (omega arith))

take_all : (k : ℕ) (stack : List PathNode) → length stack ≤ k → take k stack ≡ stack
take_all zero [] h = refl
take_all zero (n ∷ rest) h = absurd (omega arith)
take_all (suc k) [] h = refl
take_all (suc k) (n ∷ rest) h = ap (n ∷◌) (take_all k rest (omega arith))

pop_times-take :
    (n k : ℕ) (stack : List PathNode) → length stack ≡ n + k → pop_times n stack ≡ take k stack
unfolding pop_times
pop_times-take zero k stack h = sym (take_all k stack (omega arith))
pop_times-take (suc n) k stack h =
    pop_times-take n k (pop_path stack) (omega (arith, length-pop_path stack))
    ∙ take-pop_path k stack (omega arith)

pub clear_path_lem : (stack : List PathNode) → clear_path stack ≡ []
unfolding clear_path
clear_path_lem stack = pop_times-take (length stack) 0 stack (omega arith)

-- A click on a folder of the path bar leaves exactly the folders up to it, and clearing leaves none.
pub cut_path-take :
    (stack : List PathNode) (index : ℕ)
    → index < length stack
    → (cut_path stack index ≡ take (index + 1) stack) × (clear_path stack ≡ [])
unfolding cut_path clear_path
cut_path-take stack index h = (
  pop_times-take (length stack - (index + 1)) (index + 1) stack (omega arith),
  pop_times-take (length stack) 0 stack (omega arith),
)
