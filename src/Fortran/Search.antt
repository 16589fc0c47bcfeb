-- ===== src/Fortran/Search.antt =====
-- The search for the lines of a directive: `lastVisibleCharPos` and `findContinuedDirective` of
-- src/preproc.cpp.
use xevxml.Prelude.{
  ℕ, ◌+◌, Bool, true, false, not, ◌&&◌, ◌||◌, Bytes, codes, [], ◌∷◌, ◌++◌, List, map, Option, none,
  some, ◌==◌, take, drop, if◌then◌else◌, leb,
}
use xevxml.Entity.{starts_with, find}
use xevxml.Stream.{is_space}

-- Where a comment stands relative to its node; the code tells two of ROSE's enumerators from the others.
pub data RelativePosition : Type 0 where
  before : RelativePosition
  after : RelativePosition
  elsewhere : ℕ → RelativePosition

unfoldable pub same_position : RelativePosition → RelativePosition → Bool
same_position before before = true
same_position after after = true
same_position (elsewhere m) (elsewhere n) = m == n
same_position _ _ = false

-- A comment of a node, as an object with an address: the search marks objects as it reads them.
pub record Comment : Type 0 where
  pub address : ℕ
  pub position : RelativePosition
  pub string : Bytes

-- A located node: whether it is a statement, its comments, and its traversal successors; the
-- successors that are not located nodes are passed over.
mutual
  pub data LocatedNode : Type 0 where
    located : Bool → List Comment → Successors → LocatedNode

  pub data Successors : Type 0 where
    no_successors : Successors
    successor : LocatedNode → Successors → Successors
    not_located : Successors → Successors

-- The strings for trailing comments, and the addresses of the comments whose `isTransformation` holds.
pub record Search : Type 0 where
  pub cmt_before : Bytes
  pub cmt_after : Bytes
  pub transformed : List ℕ

-- A string and the state behind the search; `none` where the code reads behind the end of a string or
-- `substr` throws.
abbrev pub Found : Type 0
Found = Search → Option (Bytes × Search)

unfoldable pub is_transformation : ℕ → List ℕ → Bool
is_transformation a [] = false
is_transformation a (b ∷ bs) = a == b || is_transformation a bs

abbrev pub set_transformation : ℕ → Search → Search
set_transformation a s = record {
  cmt_before = s.cmt_before;
  cmt_after = s.cmt_after;
  transformed = a ∷ s.transformed;
}

-- What `lastVisibleCharPos` makes of its two strings, and its result (`none` for the initial -1).
pub record Line : Type 0 where
  pub str : Bytes
  pub cmt : Bytes
  pub last : Option ℕ

-- The loop from the index `i` on, with the position found so far.
unfoldable pub visible_from : Bytes → ℕ → Option ℕ → Line
visible_from [] i pos = record { str = []; cmt = []; last = pos }
visible_from (c ∷ s) i pos =
    let r = visible_from s (i + 1) (if is_space c then pos else some i) in
    if c == b'!'
    then record { str = []; cmt = (c ∷ s) ++ 10 ∷ []; last = pos }
    else record { str = c ∷ r.str; cmt = r.cmt; last = r.last }

-- The first letter is not looked at.
unfoldable pub last_visible_char_pos : Bytes → Line
last_visible_char_pos [] = record { str = []; cmt = []; last = none }
last_visible_char_pos (c ∷ s) =
    let r = visible_from s 1 none in record { str = c ∷ r.str; cmt = r.cmt; last = r.last }

-- `tolower` in the C locale.
unfoldable pub to_lower : ℕ → ℕ
to_lower c = if leb b'A' c && leb c b'Z' then c + 32 else c

-- `dirpos`, if the line is a directive.
unfoldable pub directive_pos : Bool → Bytes → Option ℕ
directive_pos is_fixed string =
    let str = map to_lower string in
    let fixed =
      if starts_with (codes "!$xev") str
        || (starts_with (codes "*$xev") str || starts_with (codes "c$xev") str)
      then some 0
      else none in
    if is_fixed then fixed else find (codes "!$xev") str 0

-- The character behind five others.
unfoldable pub sixth : Bytes → Option ℕ
sixth (_ ∷ _ ∷ _ ∷ _ ∷ _ ∷ c ∷ _) = some c
sixth _ = none

unfoldable pub is_continued : Bool → Bytes → Bool
is_continued is_fixed string = elim (sixth string) [
  | none ↦ false
  | some c ↦ if is_fixed then not (is_space c) else c == b'&'
]

unfoldable pub char_at : Bytes → ℕ → Option ℕ
char_at s i = elim (drop i s) [ [] ↦ none | c ∷ _ ↦ some c ]

abbrev pub is_empty : Bytes → Bool
is_empty [] = true
is_empty (_ ∷ _) = false

infix 20 ◌>>=◌
abbrev pub ◌>>=◌ {ℓ κ} : {A : Type ℓ} {B : Type κ} → Option A → (A → Option B) → Option B
none >>= f = none
some a >>= f = f a

-- `substr(6)`, which throws behind the end.
unfoldable pub substr_6 : Bytes → Option Bytes
substr_6 (_ ∷ _ ∷ _ ∷ _ ∷ _ ∷ _ ∷ s) = some s
substr_6 _ = none

-- A directive line is read: its trailing comment goes to one of the two strings.
unfoldable pub set_comment : Bool → Bytes → Search → Search
set_comment cont cmt s = record {
  cmt_before = if cont then s.cmt_before else s.cmt_before ++ cmt;
  cmt_after = if cont then s.cmt_after ++ cmt else s.cmt_after;
  transformed = s.transformed;
}

-- What follows a directive line that has been read: `next` searches the comments behind it, `inner`
-- stands for the `switch` on the position.
unfoldable pub continue_line : Bool → Found → Found → Bool → Bytes → Found
continue_line is_fixed next inner cont ret s =
    let l = last_visible_char_pos ret in
    let t = set_comment cont l.cmt s in
    let fixed = next t >>= λ contdir.
    inner contdir.1 >>= λ more. some (l.str ++ (contdir.0 ++ more.0), more.1) in
    let joined : ℕ → Option (Bytes × Search) = λ i. next t >>= λ contdir.
    elim (is_empty contdir.0) [
      | false ↦ some (take i l.str ++ contdir.0, contdir.1)
      | true ↦ inner contdir.1 >>= λ more. some (take i l.str ++ more.0, more.1)
    ] in
    elim is_fixed [
      | true ↦ fixed
      | false ↦
          l.last >>= λ i. char_at l.str i >>= λ c. if c == b'&' then joined i else some (l.str, t)
    ]

-- `findContinuedDirective` on a node's comments from an index on.
unfoldable pub find_lines : Bool → Found → List Comment → Bool → Found
find_lines is_fixed inner [] cont s = some ([], s)
find_lines is_fixed inner (c ∷ cs) cont s =
    let next = find_lines is_fixed inner cs true in
    let read : ℕ → Option (Bytes × Search) = λ pos. elim cont [
      | false ↦ continue_line is_fixed next inner false (drop pos c.string) s
      | true ↦ elim (is_continued is_fixed c.string) [
        | true ↦ substr_6 (drop pos c.string) >>= λ ret.
            continue_line is_fixed next inner true ret (set_transformation c.address s)
        | false ↦ if is_fixed then some ([], s) else next s
      ]
    ] in
    elim (is_transformation c.address s.transformed) [
      | true ↦ some ([], s)
      | false ↦ elim (directive_pos is_fixed c.string) [ none ↦ some ([], s) | some pos ↦ read pos ]
    ]

-- The search for a continued line at the start of a node, and the loop on a node's successors.
unfoldable mutual
  pub find_node : Bool → LocatedNode → Found
  find_node is_fixed (located b cs ns) s =
      find_lines is_fixed (find_successors is_fixed ns) cs true s

  pub find_successors : Bool → Successors → Found
  find_successors is_fixed no_successors s = some ([], s)
  find_successors is_fixed (not_located ns) s = find_successors is_fixed ns s
  find_successors is_fixed (successor n ns) s = find_node is_fixed n s >>= λ r.
      elim (is_empty r.0) [ true ↦ find_successors is_fixed ns r.1 | false ↦ some r ]

-- The `switch` on the position. `getNextStatement` is called behind a statement, and its result is not
-- used.
unfoldable pub find_inner : Bool → RelativePosition → LocatedNode → Found
find_inner is_fixed after (located true cs ns) s = find_node is_fixed (located true cs ns) s
find_inner is_fixed after (located false cs ns) s = some ([], s)
find_inner is_fixed before (located b cs ns) s = find_successors is_fixed ns s
find_inner is_fixed (elsewhere n) node s = some ([], s)
