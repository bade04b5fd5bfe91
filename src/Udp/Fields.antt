-- ===== src/Udp/Fields.antt =====
-- The fields of a device's answer, main/udp_broadcast/udp_broadcast.c, as a reader finds them.
use mathlib.Core.List.{append_assoc}
use esp32_template.Base.{ℕ, ◌+◌, ◌≡◌, refl, ap, sym, ◌∙◌, arith, false, some, [], ◌∷◌, ◌++◌, ◌==◌}
use esp32_template.Base.Bytes.{Bytes, get_u16}
use esp32_template.Json.Answer.{decimal}
use esp32_template.Json.Decimal.{AllDigits, decimal-AllDigits}
use esp32_template.Json.Strings.{Text, codes, begins_with, strstr}
use esp32_template.Platform.{Platform}
use esp32_template.Udp.{drop, quad, answer_rest, advertisment_answer}

-- `[a,b,c,d]`
abbrev pub four_numbers : ℕ → ℕ → ℕ → ℕ → Text
four_numbers a b c d =
    b'['
    ∷ (decimal a ++ b',' ∷ (decimal b ++ b',' ∷ (decimal c ++ b',' ∷ (decimal d ++ b']' ∷ []))))

-- The first field of that name has that text, which the byte `last` ends.
pub data HasField (answer name text : Text) (last : ℕ) : Type 0 where
  has_field :
      (rest : Text)
      → strstr name answer ≡ some (name ++ (text ++ last ∷ rest))
      → HasField answer name text last

-- The four bytes at an address
abbrev pub bytes_at : Bytes → ℕ → Text
bytes_at m a = four_numbers (m a) (m (a + 1)) (m (a + 2)) (m (a + 3))

-- An answer names the device's Modbus address, its address, netmask and gateway, and the port 502.
pub record HasDeviceData (pf : Platform) (m : Bytes) (answer : Text) : Type 0 where
  pub modbus_address :
      HasField answer (codes "\"modbus_address\": ") (decimal (get_u16 m pf.mdb_addr)) b','
  pub ip : HasField answer (codes "\"ip\": ") (bytes_at m pf.ip) b','
  pub netmask : HasField answer (codes "\"netmask\": ") (bytes_at m pf.netmask) b','
  pub gateway : HasField answer (codes "\"gateway\": ") (bytes_at m pf.gate) b','
  pub port : HasField answer (codes "\"port\": ") (codes "502") b'}'

-- A name begins with a quote, which no number has.
skip-AllDigits :
    (n s text : Text) → AllDigits s → strstr (b'"' ∷ n) (s ++ text) ≡ strstr (b'"' ∷ n) text
unfolding strstr begins_with
skip-AllDigits n [] text p = refl
skip-AllDigits n (c ∷ s) text (pc, ps) =
    let other : (c == b'"') ≡ false = ground arith in
    let rest = skip-AllDigits n s text ps in rw (other, rest) refl

skip-number :
    (n : Text) (k : ℕ) (text : Text)
    → strstr (b'"' ∷ n) (decimal k ++ text) ≡ strstr (b'"' ∷ n) text
skip-number n k text = skip-AllDigits n (decimal k) text (decimal-AllDigits k)

skip-number_then :
    (n : Text) (k : ℕ) (next text : Text)
    → strstr (b'"' ∷ n) ((decimal k ++ next) ++ text) ≡ strstr (b'"' ∷ n) (next ++ text)
skip-number_then n k next text =
    ap (strstr (b'"' ∷ n)) (append_assoc (decimal k) next text) ∙ skip-number n k (next ++ text)

skip-quad :
    (n : Text) (m : Bytes) (a : ℕ) (text : Text)
    → strstr (b'"' ∷ n) (quad m a ++ text) ≡ strstr (b'"' ∷ n) text
unfolding strstr begins_with
skip-quad n m a text =
    let fourth = b']' ∷ b',' ∷ [] in
    let third = b',' ∷ (decimal (m (a + 3)) ++ fourth) in
    let second = b',' ∷ (decimal (m (a + 2)) ++ third) in
    let first = b',' ∷ (decimal (m (a + 1)) ++ second) in
    skip-number_then n (m a) first text
    ∙ skip-number_then n (m (a + 1)) second text
    ∙ skip-number_then n (m (a + 2)) third text
    ∙ skip-number_then n (m (a + 3)) fourth text

-- A number in a text that goes on
push : (k : ℕ) (s t text : Text) → s ++ text ≡ t → (decimal k ++ s) ++ text ≡ decimal k ++ t
push k s t text e = append_assoc (decimal k) s text ∙ ap (λ r. decimal k ++ r) e

-- The code's text of four bytes has the numbers of the four bytes, and a comma.
quad-bytes_at : (m : Bytes) (a : ℕ) (text : Text) → quad m a ++ text ≡ bytes_at m a ++ b',' ∷ text
quad-bytes_at m a text = four (m a) (m (a + 1)) (m (a + 2)) (m (a + 3))
  where
    number :
        (k : ℕ) (s t : Text)
        → s ++ text ≡ t ++ b',' ∷ text
        → (decimal k ++ s) ++ text ≡ (decimal k ++ t) ++ b',' ∷ text
    number k s t e =
        push k s (t ++ b',' ∷ text) text e ∙ sym (append_assoc (decimal k) t (b',' ∷ text))

    four :
        (x y z w : ℕ)
        → (b'['
              ∷ (decimal x
                  ++ b','
                    ∷ (decimal y ++ b',' ∷ (decimal z ++ b',' ∷ (decimal w ++ b']' ∷ b',' ∷ [])))))
            ++ text
          ≡ four_numbers x y z w ++ b',' ∷ text
    four x y z w = ap (◌∷◌ b'[') (
        number x _ _ (
          ap (◌∷◌ b',') (
            number y _ _ (
              ap (◌∷◌ b',')
                (number z _ _ (ap (◌∷◌ b',') (number w (b']' ∷ b',' ∷ []) (b']' ∷ []) refl)))))))

pub advertisment_answer-HasDeviceData :
    (pf : Platform) (m : Bytes) → HasDeviceData pf m (advertisment_answer pf m)
unfolding advertisment_answer answer_rest strstr begins_with
advertisment_answer-HasDeviceData pf m =
    let port = codes "\"port\": 502}" in
    let gate = codes "\"gateway\": " ++ (quad m pf.gate ++ port) in
    let mask = codes "\"netmask\": " ++ (quad m pf.netmask ++ gate) in
    let number = get_u16 m pf.mdb_addr in
    record {
      modbus_address = has_field (drop 1 (answer_rest pf m)) refl;
      ip = has_field mask (
          skip-number (codes "ip\": ") number (answer_rest pf m)
          ∙ ap (λ t. some (codes "\"ip\": " ++ t)) (quad-bytes_at m pf.ip mask));
      netmask = has_field gate (
          skip-number (codes "netmask\": ") number (answer_rest pf m)
          ∙ skip-quad (codes "netmask\": ") m pf.ip mask
          ∙ ap (λ t. some (codes "\"netmask\": " ++ t)) (quad-bytes_at m pf.netmask gate));
      gateway = has_field port (
          skip-number (codes "gateway\": ") number (answer_rest pf m)
          ∙ skip-quad (codes "gateway\": ") m pf.ip mask
          ∙ skip-quad (codes "gateway\": ") m pf.netmask gate
          ∙ ap (λ t. some (codes "\"gateway\": " ++ t)) (quad-bytes_at m pf.gate port));
      port = has_field [] (
          skip-number (codes "port\": ") number (answer_rest pf m)
          ∙ skip-quad (codes "port\": ") m pf.ip mask
          ∙ skip-quad (codes "port\": ") m pf.netmask gate
          ∙ skip-quad (codes "port\": ") m pf.gate port);
    }
