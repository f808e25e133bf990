-- ===== src/Examples/Toys.antt =====
-- Small instances of `Gordian` and `Envelopes`: ARIDs are numbers, envelopes are trees, and the codecs
-- print postfix notation, a UR with its numbers in unary.
use hubert_rust.Base.{
  ℕ, zero, suc, ◌+◌, ◌≡◌, ◌≢◌, refl, ◌∙◌, ap, true, false, Option, none, some, List, [], ◌∷◌, ◌==◌,
  ==_iff, arith, if◌then◌else◌,
}
use hubert_rust.Base.Lists.{Bytes, text}
use hubert_rust.Base.Io.{Result, ok, err}
use hubert_rust.Error.{envelope, cbor}
use hubert_rust.Text.Graphic.{AllGraphic}
use hubert_rust.Gordian.{Gordian, IsLawful}
use hubert_rust.Hybrid.Api.{Envelopes, AreEnvelopes}

pub data Tree : Type 0 where
  unit : Tree
  known : ℕ → Tree
  number : ℕ → Tree
  arid : ℕ → Tree
  words : Bytes → Tree
  assertion : Tree → Tree → Tree
  plus : Tree → Tree → Tree

-- Postfix notation, before what follows.
abbrev pub print : Tree → Bytes → Bytes
print unit rest = 0 ∷ rest
print (known n) rest = 1 ∷ n ∷ rest
print (number n) rest = 2 ∷ n ∷ rest
print (arid n) rest = 3 ∷ n ∷ rest
print (words []) rest = 4 ∷ rest
print (words (c ∷ s)) rest = print (words s) (5 ∷ c ∷ rest)
print (assertion p o) rest = print o (print p (6 ∷ rest))
print (plus e a) rest = print a (print e (7 ∷ rest))

abbrev pub read : Bytes → List Tree → Option Tree
read [] (t ∷ []) = some t
read (zero ∷ rest) stack = read rest (unit ∷ stack)
read ((suc zero) ∷ n ∷ rest) stack = read rest (known n ∷ stack)
read ((suc (suc zero)) ∷ n ∷ rest) stack = read rest (number n ∷ stack)
read ((suc (suc (suc zero))) ∷ n ∷ rest) stack = read rest (arid n ∷ stack)
read ((suc (suc (suc (suc zero)))) ∷ rest) stack = read rest (words [] ∷ stack)
read ((suc (suc (suc (suc (suc zero))))) ∷ c ∷ rest) (words s ∷ stack) =
    read rest (words (c ∷ s) ∷ stack)
read ((suc (suc (suc (suc (suc (suc zero)))))) ∷ rest) (p ∷ o ∷ stack) =
    read rest (assertion p o ∷ stack)
read ((suc (suc (suc (suc (suc (suc (suc zero))))))) ∷ rest) (e ∷ a ∷ stack) =
    read rest (plus e a ∷ stack)
read _ _ = none

read-print :
    (t : Tree) (rest : Bytes) (stack : List Tree)
    → read (print t rest) stack ≡ read rest (t ∷ stack)
read-print unit rest stack = refl
read-print (known n) rest stack = refl
read-print (number n) rest stack = refl
read-print (arid n) rest stack = refl
read-print (words []) rest stack = refl
read-print (words (c ∷ s)) rest stack = read-print (words s) (5 ∷ c ∷ rest) stack
read-print (assertion p o) rest stack =
    read-print o (print p (6 ∷ rest)) stack ∙ read-print p (6 ∷ rest) (o ∷ stack)
read-print (plus e a) rest stack =
    read-print a (print e (7 ∷ rest)) stack ∙ read-print e (7 ∷ rest) (a ∷ stack)

-- Numbers in unary, each closed by an `a`.
abbrev pub unary : ℕ → Bytes → Bytes
unary zero rest = b'a' ∷ rest
unary (suc n) rest = b'i' ∷ unary n rest

abbrev pub show : Bytes → Bytes
show [] = []
show (n ∷ s) = unary n (show s)

abbrev pub scan : Bytes → ℕ → Bytes
scan [] n = []
scan (c ∷ s) n = if c == b'i' then scan s (suc n) else n ∷ scan s 0

scan-unary : (n : ℕ) (rest : Bytes) (m : ℕ) → scan (unary n rest) m ≡ (n + m) ∷ scan rest 0
scan-unary zero rest m = ground arith
scan-unary (suc n) rest m = ground (arith, scan-unary n rest (suc m))

scan-show : (s : Bytes) → scan (show s) 0 ≡ s
scan-show [] = refl
scan-show (n ∷ s) = ground (arith, scan-unary n (show s) 0, scan-show s)

unary-AllGraphic : (n : ℕ) (rest : Bytes) → AllGraphic rest → AllGraphic (unary n rest)
unary-AllGraphic zero rest h = ((omega arith, omega arith), h)
unary-AllGraphic (suc n) rest h = ((omega arith, omega arith), unary-AllGraphic n rest h)

show-AllGraphic : (s : Bytes) → AllGraphic (show s)
show-AllGraphic [] = tt
show-AllGraphic (n ∷ s) = unary-AllGraphic n (show s) (show-AllGraphic s)

unary-ne-nil : (n : ℕ) (rest : Bytes) → unary n rest ≢ []
unary-ne-nil zero rest h = cc
unary-ne-nil (suc n) rest h = cc

abbrev parsed : Option Tree → Result Tree Bytes
parsed (some t) = ok t
parsed none = err (text "not an envelope")

abbrev pub tree_of : Bytes → Result Tree Bytes
tree_of s = parsed (read s [])

pub tree_of-print : (e : Tree) → tree_of (print e []) ≡ ok e
tree_of-print e = ap parsed (read-print e [] [])

abbrev sole : Bytes → Option ℕ
sole (n ∷ []) = some n
sole _ = none

abbrev pub toy : Gordian
toy = record {
  Arid = ℕ;
  arid_eq = record { beq = λ a b. a == b; beq_iff = ==_iff };
  arid_data = λ k. k ∷ [];
  arid_ur = λ k. unary k [];
  arid_from_ur = λ s. sole (scan s 0);
  Envelope = Tree;
  envelope_ur = λ e. b'e' ∷ show (print e []);
  envelope_from_ur = λ s. elim s [ [] ↦ err (text "empty") | c ∷ rest ↦ tree_of (scan rest 0) ];
  to_cbor_data = λ e. print e [];
  from_cbor_data = tree_of;
  ur_error = envelope;
  cbor_error = cbor;
}

pub toy-IsLawful : IsLawful toy
toy-IsLawful = record {
  arid_round_trip = λ k. rw (scan-unary k [] 0) (ground arith);
  envelope_round_trip = λ e. ap tree_of (scan-show (print e [])) ∙ tree_of-print e;
  cbor_round_trip = tree_of-print;
  arid_graphic = λ k. unary-AllGraphic k [] tt;
  arid_ne_nil = λ k. unary-ne-nil k [];
  envelope_graphic = λ e. ((omega arith, omega arith), show-AllGraphic (print e []));
  envelope_ne_nil = λ e h. cc;
}

abbrev pub forest : Envelopes toy
forest = record {
  Cbor = Tree;
  is_subject_unit = λ e. elim (subject_of e) [ unit ↦ true | _ ↦ false ];
  assertions = assertions_of;
  try_predicate = λ e. elim e [ assertion p o ↦ some p | _ ↦ none ];
  try_object = λ e. elim e [ assertion p o ↦ some o | _ ↦ none ];
  subject = subject_of;
  known_value = λ e. elim e [ known n ↦ some n | _ ↦ none ];
  try_leaf = λ e. some e;
  try_into_text = λ e. elim e [ words s ↦ some s | _ ↦ none ];
  arid_from_cbor = λ e. elim e [ arid k ↦ some k | _ ↦ none ];
  unit = unit;
  tagged_cbor_data = λ e. print e [];
  add_assertion = λ e p o. plus e (assertion p o);
  from_known_value = known;
  from_text = words;
  from_arid = arid;
  from_i64 = number;
  dereference_via = 9;
  id = 2;
}
  where
    subject_of : Tree → Tree
    subject_of (plus e a) = subject_of e
    subject_of t = t

    assertions_of : Tree → List Tree
    assertions_of (plus e a) = a ∷ assertions_of e
    assertions_of t = []

pub forest-AreEnvelopes : AreEnvelopes forest
forest-AreEnvelopes = record {
  unit_is_unit = refl;
  unit_is_bare = refl;
  add_keeps_subject = λ e p o. refl;
  assertion = assertion;
  any-add_assertion = λ f e p o. refl;
  predicate_of = λ p o. refl;
  object_of = λ p o. refl;
  known_value_of = λ n. refl;
  known_value_of_text = λ s. refl;
  id_is_other = λ h. omega arith;
  text_leaf = λ s. (words s, refl, refl);
  arid_leaf = λ k. (arid k, refl, refl);
}

-- An envelope to store.
abbrev pub hello : Tree
hello = Tree.number 5
