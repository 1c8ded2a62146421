-- ===== src/Parser/Fronts.antt =====
-- The text of answers: it has no NUL, and where it may be cut.
use lrued_redis_storage_iceb.Prelude.{
  ◌≤◌, ◌<◌, ◌≡◌, refl, ◌⊎◌, inl, inr, List, [], ◌∷◌, ◌++◌, arith, length, ◌∙◌, ap, sym,
  length-append, append_assoc,
}
use lrued_redis_storage_iceb.State.{Text, max_read}
use lrued_redis_storage_iceb.Parser.Number.{IsDigits, NoNul}
use lrued_redis_storage_iceb.Parser.Reply.{Item, IsItem, item_bytes, Field, AllFields, fields_bytes}
use lrued_redis_storage_iceb.Parser.Answers.{
  Answer, IsAnswer, answer_bytes, answers_bytes, AllAnswers,
}
use lrued_redis_storage_iceb.Parser.Cut.{append_split}

pub NoNul-append : (xs ys : Text) → NoNul xs → NoNul ys → NoNul (xs ++ ys)
NoNul-append [] ys h k = k
NoNul-append (x ∷ xs) ys h k = (h.0, NoNul-append xs ys h.1 k)

pub NoNul-front : (xs ys : Text) → NoNul (xs ++ ys) → NoNul xs
NoNul-front [] ys h = tt
NoNul-front (x ∷ xs) ys h = (h.0, NoNul-front xs ys h.1)

pub NoNul-back : (xs ys : Text) → NoNul (xs ++ ys) → NoNul ys
NoNul-back [] ys h = h
NoNul-back (x ∷ xs) ys h = NoNul-back xs ys h.1

digits-NoNul : (ds : Text) → IsDigits ds → NoNul ds
digits-NoNul [] h = tt
digits-NoNul (d ∷ ds) h = (λ e. omega (arith, e, h.0), digits-NoNul ds h.2)

line_end-NoNul : NoNul (13 ∷ 10 ∷ [])
line_end-NoNul = ground arith

item_bytes-NoNul : (item : Item) → IsItem item → NoNul (item_bytes item)
unfolding item_bytes
item_bytes-NoNul item v = (
  ground arith,
  NoNul-append item.digits _ (digits-NoNul item.digits v.numeral) (
      NoNul-append (13 ∷ 10 ∷ []) _ line_end-NoNul
        (NoNul-append item.body _ v.no_nul line_end-NoNul)),
)

fields_bytes-NoNul : (fs : List Field) → AllFields fs → NoNul (fields_bytes fs)
unfolding fields_bytes
fields_bytes-NoNul [] v = tt
fields_bytes-NoNul (f ∷ fs) v =
    NoNul-append (item_bytes f.name) _ (item_bytes-NoNul f.name v.0.name_ok) (
      NoNul-append (item_bytes f.content) _ (item_bytes-NoNul f.content v.0.content_ok)
        (fields_bytes-NoNul fs v.1))

pub answers_bytes-NoNul :
    (answers : List Answer) → AllAnswers answers → NoNul (answers_bytes answers)
unfolding answers_bytes answer_bytes
answers_bytes-NoNul [] v = tt
answers_bytes-NoNul (a ∷ as') v =
    NoNul-append (answer_bytes a) _
      (
        ground arith,
        NoNul-append a.digits _ (digits-NoNul a.digits v.0.numeral) (
            NoNul-append (13 ∷ 10 ∷ []) _ line_end-NoNul
              (fields_bytes-NoNul a.fields v.0.fields_ok)),
      )
      (answers_bytes-NoNul as' v.1)

-- No answer is longer than one read.
abbrev pub AllShort : List Answer → Type 0
AllShort [] = Unit {0}
AllShort (a ∷ as') = (length (answer_bytes a) ≤ max_read) × AllShort as'

-- A text that an answer begins with, and does not end with.
pub record IsFront (part : Text) : Type 0 where
  pub answer : Answer
  pub missing : Text
  pub valid : IsAnswer answer
  pub small : length (answer_bytes answer) ≤ max_read
  pub whole : part ++ missing ≡ answer_bytes answer
  pub some_bytes : 0 < length part
  pub left : 0 < length missing

-- What is left of a text behind its whole answers.
abbrev pub IsCut : Text → Type 0
IsCut part = (part ≡ []) ⊎ IsFront part

-- It is shorter than the answer that it belongs to.
abbrev pub IsBefore : Text → List Answer → Type 0
IsBefore part [] = part ≡ []
IsBefore part (a ∷ as') = length part < length (answer_bytes a)

-- A text that may end inside an answer.
pub record Split (answers : List Answer) (text rest : Text) : Type 0 where
  pub done : List Answer
  pub todo : List Answer
  pub part : Text
  pub all : answers ≡ done ++ todo
  pub text_is : text ≡ answers_bytes done ++ part
  pub rest_is : part ++ rest ≡ answers_bytes todo
  pub cut : IsCut part
  pub before : IsBefore part todo

pub split :
    (answers : List Answer) (text rest : Text)
    → AllAnswers answers
    → AllShort answers
    → text ++ rest ≡ answers_bytes answers
    → Split answers text rest
unfolding answers_bytes
split [] [] rest v small e = record {
  done = [];
  todo = [];
  part = [];
  all = refl;
  text_is = refl;
  rest_is = e;
  cut = inl refl;
  before = refl;
}
split [] (c ∷ text) rest v small e = absurd (omega (arith, ap length e))
split (a ∷ as') text rest v small e =
    elim (append_split text rest (answer_bytes a) (answers_bytes as') e) [
      | inl (more, e1, e2) ↦
          let s = split as' more rest v.1 small.1 e2 in
          record {
            done = a ∷ s.done;
            todo = s.todo;
            part = s.part;
            all = ap (λ l. a ∷ l) s.all;
            text_is =
                e1
                ∙ ap (λ l. answer_bytes a ++ l) s.text_is
                ∙ sym (append_assoc (answer_bytes a) (answers_bytes s.done) s.part);
            rest_is = s.rest_is;
            cut = s.cut;
            before = s.before;
          }
      | inr (tail, h, e1, e2) ↦ record {
        done = [];
        todo = a ∷ as';
        part = text;
        all = refl;
        text_is = refl;
        rest_is = e;
        cut = front text tail h e1;
        before = omega (arith, h, ap length e1, length-append text tail);
      }
    ]
  where
    front : (text tail : Text) → 0 < length tail → answer_bytes a ≡ text ++ tail → IsCut text
    front [] tail h e = inl refl
    front (c ∷ text) tail h e = inr (record {
      answer = a;
      missing = tail;
      valid = v.0;
      small = small.0;
      whole = sym e;
      some_bytes = omega arith;
      left = h;
    })

pub AllAnswers-split :
    (as' bs : List Answer) → AllAnswers (as' ++ bs) → AllAnswers as' × AllAnswers bs
AllAnswers-split [] bs v = (tt, v)
AllAnswers-split (a ∷ as') bs v = let (va, vb) = AllAnswers-split as' bs v.1 in ((v.0, va), vb)

pub AllShort-split : (as' bs : List Answer) → AllShort (as' ++ bs) → AllShort as' × AllShort bs
AllShort-split [] bs v = (tt, v)
AllShort-split (a ∷ as') bs v = let (va, vb) = AllShort-split as' bs v.1 in ((v.0, va), vb)
