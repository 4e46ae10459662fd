-- ===== src/Recovery/Tests/Codec.antt =====
-- A packing of log records that obeys the laws of msgpack: numbers in unary, and the length before a list.
mod Flushing
use lineair_db.Base.{ℕ, zero, suc, ◌-◌, ◌≤◌, ◌≡◌, refl, sym, ap, ◌∙◌, arith, Option, none, some}
use lineair_db.Base.{
  List, [], ◌∷◌, ◌++◌, All, All-append, length, length-append, append_assoc, append-nil,
}
use lineair_db.Types.Keys.{Key, IsByte}
use lineair_db.Types.TransactionId.{TransactionId}
use lineair_db.Recovery.LogRecord.{KeyValuePair, LogRecord, MsgPack}

record Coder {ℓ} (A : Type ℓ) : Type ℓ where
  put : A → List ℕ
  get : List ℕ → Option (A × List ℕ)
  law : (a : A) (rest : List ℕ) → get (put a ++ rest) ≡ some (a, rest)
  bytes : (a : A) → All IsByte (put a)

abbrev then_get {ℓ κ} :
    {A : Type ℓ} {B : Type κ}
    → Option (A × List ℕ)
    → (A → List ℕ → Option (B × List ℕ))
    → Option (B × List ℕ)
then_get none f = none
then_get (some (a, rest)) f = f a rest

put_nat : ℕ → List ℕ
put_nat zero = 0 ∷ []
put_nat (suc n) = 1 ∷ put_nat n

get_nat : List ℕ → Option (ℕ × List ℕ)
get_nat [] = none
get_nat (zero ∷ l) = some (0, l)
get_nat (suc b ∷ l) = then_get (get_nat l) (λ n rest. some (suc n, rest))

get_nat-put : (n : ℕ) (rest : List ℕ) → get_nat (put_nat n ++ rest) ≡ some (n, rest)
unfolding get_nat put_nat
get_nat-put zero rest = refl
get_nat-put (suc n) rest = rw (get_nat-put n rest)

put_nat-bytes : (n : ℕ) → All IsByte (put_nat n)
unfolding put_nat
put_nat-bytes zero = (omega arith, tt)
put_nat-bytes (suc n) = (omega arith, put_nat-bytes n)

nat_coder : Coder ℕ
nat_coder = record { put = put_nat; get = get_nat; law = get_nat-put; bytes = put_nat-bytes }

pair_coder {ℓ κ} : {A : Type ℓ} {B : Type κ} → Coder A → Coder B → Coder (A × B)
pair_coder a b = record {
  put = λ p. a.put p.0 ++ b.put p.1;
  get = λ l. then_get (a.get l) (λ x rest. then_get (b.get rest) (λ y rest'. some ((x, y), rest')));
  law = λ p rest. rw (append_assoc, a.law p.0 (b.put p.1 ++ rest), b.law p.1 rest);
  bytes = λ p. All-append IsByte (a.put p.0) (b.put p.1) (a.bytes p.0) (b.bytes p.1);
}

map_coder {ℓ κ} :
    {A : Type ℓ} {B : Type κ} (make : A → B) (fields : B → A)
    → ((b : B) → make (fields b) ≡ b)
    → Coder A
    → Coder B
map_coder make fields same a = record {
  put = λ b. a.put (fields b);
  get = λ l. then_get (a.get l) (λ x rest. some (make x, rest));
  law = λ b rest. rw (a.law (fields b) rest, same b);
  bytes = λ b. a.bytes (fields b);
}

module _ {ℓ} {A : Type ℓ} (a : Coder A) where
  put_items : List A → List ℕ
  put_items [] = []
  put_items (x ∷ l) = a.put x ++ put_items l

  get_items : ℕ → List ℕ → Option (List A × List ℕ)
  get_items zero l = some ([], l)
  get_items (suc n) l =
      then_get (a.get l) (λ x rest. then_get (get_items n rest) (λ xs rest'. some (x ∷ xs, rest')))

  get_items-put :
      (xs : List A) (rest : List ℕ) → get_items (length xs) (put_items xs ++ rest) ≡ some (xs, rest)
  unfolding get_items put_items
  get_items-put [] rest = refl
  get_items-put (x ∷ xs) rest =
      rw (append_assoc, a.law x (put_items xs ++ rest), get_items-put xs rest)

  put_items-bytes : (xs : List A) → All IsByte (put_items xs)
  unfolding put_items
  put_items-bytes [] = tt
  put_items-bytes (x ∷ xs) =
      All-append IsByte (a.put x) (put_items xs) (a.bytes x) (put_items-bytes xs)

  list_coder : Coder (List A)
  list_coder = record {
    put = λ xs. put_nat (length xs) ++ put_items xs;
    get = λ l. then_get (get_nat l) (λ n rest. get_items n rest);
    law = λ xs rest.
        rw (append_assoc, get_nat-put (length xs) (put_items xs ++ rest)) (get_items-put xs rest);
    bytes = λ xs.
        All-append IsByte (put_nat (length xs)) (put_items xs) (put_nat-bytes (length xs))
          (put_items-bytes xs);
  }

key_coder : Coder Key
key_coder = list_coder nat_coder

tid_coder : Coder TransactionId
tid_coder =
    map_coder (λ (p : ℕ × ℕ). record { epoch = p.0; tid = p.1 }) (λ t. (t.epoch, t.tid)) (λ t. refl)
      (pair_coder nat_coder nat_coder)

names_coder : Coder (Key × (Key × (Key × Key)))
names_coder = pair_coder key_coder (pair_coder key_coder (pair_coder key_coder key_coder))

rest_coder : Coder (TransactionId × (List ℕ × (ℕ × (List Key × ℕ))))
rest_coder =
    pair_coder tid_coder
      (pair_coder key_coder (pair_coder nat_coder (pair_coder (list_coder key_coder) nat_coder)))

pair_of :
    (Key × (Key × (Key × Key))) × (TransactionId × (List ℕ × (ℕ × (List Key × ℕ)))) → KeyValuePair
pair_of p = record {
  key = p.0.0;
  buffer = p.1.1.0;
  tid = p.1.0;
  table_name = p.0.1.0;
  index_name = p.0.1.1.0;
  index_type = p.1.1.1.0;
  primary_keys = p.1.1.1.1.0;
  secondary_op = p.1.1.1.1.1;
  secondary_primary_key = p.0.1.1.1;
}

fields_of :
    KeyValuePair → (Key × (Key × (Key × Key))) × (TransactionId × (List ℕ × (ℕ × (List Key × ℕ))))
fields_of k = (
  (k.key, (k.table_name, (k.index_name, k.secondary_primary_key))),
  (k.tid, (k.buffer, (k.index_type, (k.primary_keys, k.secondary_op)))),
)

pair_of-fields_of : (k : KeyValuePair) → pair_of (fields_of k) ≡ k
unfolding pair_of fields_of
pair_of-fields_of k = refl

record_coder : Coder LogRecord
record_coder =
    map_coder (λ (p : ℕ × List KeyValuePair). record { epoch = p.0; key_value_pairs = p.1 })
      (λ r. (r.epoch, r.key_value_pairs)) (λ r. refl)
      (pair_coder nat_coder (
        list_coder
          (map_coder pair_of fields_of pair_of-fields_of (pair_coder names_coder rest_coder))))

put_nat-some : (n : ℕ) → 1 ≤ length (put_nat n)
unfolding put_nat
put_nat-some zero = omega arith
put_nat-some (suc n) = omega arith

unpack_all : List ℕ → Option (List LogRecord × ℕ)
unpack_all l = then_count ((list_coder record_coder).get l)
  where
    then_count : Option (List LogRecord × List ℕ) → Option (List LogRecord × ℕ)
    then_count none = none
    then_count (some (rs, rest)) = some (rs, length l - length rest)

pub unary : MsgPack
unfolding list_coder unpack_all
unary = record {
  pack = λ rs. (list_coder record_coder).put rs;
  unpack = unpack_all;
  pack_bytes = λ rs. (list_coder record_coder).bytes rs;
  pack_some = λ rs. rw length-append (omega (arith, put_nat-some (length rs)));
  unpack-pack = λ rs. rw (whole rs) (ap (λ (n : ℕ). some (rs, n)) (omega arith));
}
  where
    whole :
        (rs : List LogRecord)
        → (list_coder record_coder).get ((list_coder record_coder).put rs) ≡ some (rs, [])
    whole rs =
        ap (list_coder record_coder).get (sym (append-nil ((list_coder record_coder).put rs)))
        ∙ (list_coder record_coder).law rs []

abbrev pub one_record : List LogRecord
one_record = record { epoch = 5; key_value_pairs = [] } ∷ []

pub length-pack_one : length (unary.pack one_record) ≡ 9
unfolding unary list_coder put_items record_coder map_coder pair_coder nat_coder put_nat
length-pack_one = refl
