-- ===== src/Tests/Coder.antt =====
-- Encoders of values as numbers, one after the other, and what is read back.
use Prim.Native.Nat.{Ordering, compare}
use Prim.Native.Char.{Char, char, code, IsLt}
use Prim.Native.String.{String}
use text.Mathlib.TextEquality.{Char-path}
use mathlib.Core.Path.{◌∙◌}
use logic_raft.Base.{
  ℕ, zero, suc, ◌≡◌, ◌≢◌, ◌⊎◌, refl, ap, Bool, true, false, Option, none, some, List, [], ◌∷◌, inl,
  inr, length, get_elem?,
}
use logic_raft.Gob.{Gob}
use logic_raft.Persister.{Bytes}

pub record Coder (A : Type 0) : Type 0 where
  pub encode : A → Bytes → Bytes
  pub decode : Bytes → A × Bytes
  pub decode-encode : (a : A) (rest : Bytes) → decode (encode a rest) ≡ (a, rest)

abbrev read_number : Bytes → ℕ × Bytes
read_number [] = (0, [])
read_number (n ∷ rest) = (n, rest)

abbrev pub number : Coder ℕ
number = record {
  encode = λ n rest. n ∷ rest;
  decode = read_number;
  decode-encode = λ n rest. refl;
}

-- One value for another, where the second gives the first back.
abbrev pub through :
    {A B : Type 0} (f : A → B) (g : B → A) → ((a : A) → g (f a) ≡ a) → Coder B → Coder A
through f g law b = record {
  encode = λ a rest. b.encode (f a) rest;
  decode = λ bytes. let r = b.decode bytes in (g r.0, r.1);
  decode-encode =
      λ a rest. ap (λ r. (g r.0, r.1)) (b.decode-encode (f a) rest) ∙ ap (λ x. (x, rest)) (law a);
}

abbrev pub pair : {A B : Type 0} → Coder A → Coder B → Coder (A × B)
pair a b = record {
  encode = λ p rest. a.encode p.0 (b.encode p.1 rest);
  decode = λ bytes. let r = a.decode bytes in let s = b.decode r.1 in ((r.0, s.0), s.1);
  decode-encode = λ p rest. rw (a.decode-encode p.0 (b.encode p.1 rest), b.decode-encode p.1 rest);
}

module _ {A : Type 0} (a : Coder A) where
  abbrev encode_all : List A → Bytes → Bytes
  encode_all [] rest = rest
  encode_all (x ∷ xs) rest = a.encode x (encode_all xs rest)

  abbrev decode_all : ℕ → Bytes → List A × Bytes
  decode_all zero bytes = ([], bytes)
  decode_all (suc n) bytes =
      let r = a.decode bytes in let rest = decode_all n r.1 in (r.0 ∷ rest.0, rest.1)

  pub decode_all-encode_all :
      (xs : List A) (rest : Bytes) → decode_all (length xs) (encode_all xs rest) ≡ (xs, rest)
  decode_all-encode_all [] rest = refl
  decode_all-encode_all (x ∷ xs) rest =
      rw (a.decode-encode x (encode_all xs rest), decode_all-encode_all xs rest)

  abbrev decode_list : Bytes → List A × Bytes
  decode_list [] = ([], [])
  decode_list (n ∷ bytes) = decode_all n bytes

  abbrev pub list : Coder (List A)
  list = record {
    encode = λ xs rest. length xs ∷ encode_all xs rest;
    decode = decode_list;
    decode-encode = decode_all-encode_all;
  }

module _ {A B : Type 0} (a : Coder A) (b : Coder B) where
  abbrev encode_either : A ⊎ B → Bytes → Bytes
  encode_either (inl x) rest = 0 ∷ a.encode x rest
  encode_either (inr y) rest = 1 ∷ b.encode y rest

  abbrev decode_either : Bytes → (A ⊎ B) × Bytes
  decode_either [] = let r = a.decode [] in (inl r.0, r.1)
  decode_either (zero ∷ bytes) = let r = a.decode bytes in (inl r.0, r.1)
  decode_either (suc n ∷ bytes) = let r = b.decode bytes in (inr r.0, r.1)

  pub decode_either-encode :
      (s : A ⊎ B) (rest : Bytes) → decode_either (encode_either s rest) ≡ (s, rest)
  decode_either-encode (inl x) rest = rw (a.decode-encode x rest)
  decode_either-encode (inr y) rest = rw (b.decode-encode y rest)

  abbrev pub either : Coder (A ⊎ B)
  either = record {
    encode = encode_either;
    decode = decode_either;
    decode-encode = decode_either-encode;
  }

abbrev of_bool : Bool → ℕ
of_bool true = 1
of_bool false = 0

abbrev to_bool : ℕ → Bool
to_bool zero = false
to_bool (suc n) = true

pub to_bool-of_bool : (b : Bool) → to_bool (of_bool b) ≡ b
to_bool-of_bool true = refl
to_bool-of_bool false = refl

abbrev pub bool : Coder Bool
bool = through of_bool to_bool to_bool-of_bool number

abbrev of_option : {A : Type 0} → Option A → ℕ ⊎ A
of_option none = inl 0
of_option (some a) = inr a

abbrev to_option : {A : Type 0} → ℕ ⊎ A → Option A
to_option (inl n) = none
to_option (inr a) = some a

pub to_option-of_option : {A : Type 0} (o : Option A) → to_option (of_option o) ≡ o
to_option-of_option none = refl
to_option-of_option (some a) = refl

abbrev pub option : {A : Type 0} → Coder A → Coder (Option A)
option a = through of_option to_option to_option-of_option (either number a)

-- The test that a number is a character's, by the comparisons of `IsScalar`.
abbrev Both : Ordering → Ordering → Type 0
Both Ordering.lt o = IsLt o
Both Ordering.eq _ = ⊥
Both Ordering.gt _ = ⊥

abbrev Scalar : Ordering → Ordering → Ordering → Type 0
Scalar Ordering.lt _ _ = Unit
Scalar Ordering.eq o p = Both o p
Scalar Ordering.gt o p = Both o p

abbrev is_lt : (o : Ordering) → Option (IsLt o)
is_lt Ordering.lt = some tt
is_lt Ordering.eq = none
is_lt Ordering.gt = none

abbrev both : (o p : Ordering) → Option (Both o p)
both Ordering.lt p = is_lt p
both Ordering.eq p = none
both Ordering.gt p = none

abbrev scalar : (o p q : Ordering) → Option (Scalar o p q)
scalar Ordering.lt p q = some tt
scalar Ordering.eq p q = both p q
scalar Ordering.gt p q = both p q

abbrev to_char : ℕ → Char
to_char n = elim (scalar (compare n 55296) (compare 57343 n) (compare n 1114112)) [
  | none ↦ char 0 tt
  | some h ↦ char n h
]

is_lt-some : (o : Ordering) → IsLt o → (h : IsLt o) × (is_lt o ≡ some h)
is_lt-some Ordering.lt h = (tt, refl)
is_lt-some Ordering.eq h = absurd h
is_lt-some Ordering.gt h = absurd h

scalar-some : (o p q : Ordering) → Scalar o p q → (h : Scalar o p q) × (scalar o p q ≡ some h)
scalar-some Ordering.lt p q h = (tt, refl)
scalar-some Ordering.eq Ordering.lt q h = is_lt-some q h
scalar-some Ordering.eq Ordering.eq q h = absurd h
scalar-some Ordering.eq Ordering.gt q h = absurd h
scalar-some Ordering.gt Ordering.lt q h = is_lt-some q h
scalar-some Ordering.gt Ordering.eq q h = absurd h
scalar-some Ordering.gt Ordering.gt q h = absurd h

to_char-code : (c : Char) → to_char (code c) ≡ c
to_char-code (char n h) =
    let (h', e) = scalar-some (compare n 55296) (compare 57343 n) (compare n 1114112) h in
    rw (to_char, e) (Char-path (char n h') (char n h) refl)

abbrev of_string : String → List ℕ
of_string String.[] = []
of_string (String.◌∷◌ c s) = code c ∷ of_string s

abbrev to_string : List ℕ → String
to_string [] = String.[]
to_string (n ∷ ns) = String.◌∷◌ (to_char n) (to_string ns)

pub to_string-of_string : (s : String) → to_string (of_string s) ≡ s
to_string-of_string String.[] = refl
to_string-of_string (String.◌∷◌ c s) = λ i. String.◌∷◌ (to_char-code c i) (to_string-of_string s i)

abbrev pub string : Coder String
string = through of_string to_string to_string-of_string (list number)

pub list-ne : {V : Type 0} (v : Coder V) (x : V) (xs : List V) → (list v).encode (x ∷ xs) [] ≢ []
list-ne v x xs h = cc

-- An encoder's writes and reads, from a coder of one value.
abbrev pub gob_of : {V : Type 0} → Coder V → Gob V
gob_of v = record {
  write = λ vs. (list v).encode vs [];
  read = λ bytes i. get_elem? ((list v).decode bytes).0 i;
  read_write = λ vs i. ap (λ r. get_elem? r.0 i) ((list v).decode-encode vs []);
  write_nonempty = list-ne v;
}
