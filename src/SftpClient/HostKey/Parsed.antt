-- ===== src/SftpClient/HostKey/Parsed.antt =====
-- A host key signature in the form that Kasten writes is parsed to its key.
use mathlib.Core.List.{reverse-append, reverse-reverse}
use kasten_frs_web.Base.{
  nat_eq, text_eq, ℕ, ◌≡◌, refl, ◌≢◌, Bool, true, false, some, [], ◌∷◌, ◌++◌, Str, length, All,
  none, arith, ◌==◌, eq_refl, take, drop, All-map, sym, ap, ◌∙◌, reverse, All-reverse, not, eq_ne,
  suc, text_beq, Option, All-append, subst, append_assoc,
}
use kasten_frs_web.Base.Int.{ℤ}
use kasten_frs_web.SftpClient.HostKey.{
  span, net_split_host_port, split_port, split_at_colon, is_re_space, match_end, match_key,
  match_alg, match_words, match_port, match_host, match_sig, key_found, key_of_address,
  key_of_match, parse_host_key_signature,
}
use kasten_frs_web.Std.Strconv.{is_digit, parse_int}
use kasten_frs_web.Std.Strings.{last_index_byte, is_space, trim_left_space, trim_space}

span-stops :
    (p : ℕ → Bool) (xs : Str) (c : ℕ) (ys : Str)
    → All (λ x. p x ≡ true) xs
    → p c ≡ false
    → span p (xs ++ (c ∷ ys)) ≡ (xs, c ∷ ys)
unfolding span
span-stops p [] c ys h n = rw n refl
span-stops p (x ∷ xs) c ys h n = rw (h.0, span-stops p xs c ys h.1 n) refl

span_whole : (p : ℕ → Bool) (xs : Str) → All (λ x. p x ≡ true) xs → span p xs ≡ (xs, [])
unfolding span
span_whole p [] h = refl
span_whole p (x ∷ xs) h = rw (h.0, span_whole p xs h.1) refl

last_index_byte-none :
    (c : ℕ) (ys : Str) → All (λ y. (y == c) ≡ false) ys → last_index_byte c ys ≡ none
unfolding last_index_byte
last_index_byte-none c [] h = refl
last_index_byte-none c (y ∷ ys) h = rw (last_index_byte-none c ys h.1, h.0) refl

last_index_byte-append :
    (c : ℕ) (xs ys : Str)
    → All (λ y. (y == c) ≡ false) ys
    → last_index_byte c (xs ++ (c ∷ ys)) ≡ some (length xs)
unfolding last_index_byte
last_index_byte-append c [] ys h = rw (last_index_byte-none c ys h, eq_refl c) refl
last_index_byte-append c (x ∷ xs) ys h = rw (last_index_byte-append c xs ys h) refl

take-all : (xs ys : Str) → take (length xs) (xs ++ ys) ≡ xs
take-all [] ys = refl
take-all (x ∷ xs) ys = rw (take-all xs ys) refl

drop-all : (xs : Str) (c : ℕ) (ys : Str) → drop (suc (length xs)) (xs ++ (c ∷ ys)) ≡ ys
drop-all [] c ys = refl
drop-all (x ∷ xs) c ys = drop-all xs c ys

net_split-port :
    (host port : Str) (n : ℤ)
    → All (λ c. is_digit c ≡ true) port
    → parse_int port ≡ some n
    → net_split_host_port (host ++ (58 ∷ port)) ≡ some (host, port)
unfolding net_split_host_port split_at_colon split_port
net_split-port host port n d h =
    rw
      (
        last_index_byte-append 58 host port (All-map (λ c t. ground (arith, t)) port d),
        take-all host (58 ∷ port),
        drop-all host 58 port,
        h,
      )
      refl

-- A word: not empty, and without spaces.
abbrev pub IsWord : Str → Type 0
IsWord s = (s ≢ []) × All (λ c. is_space c ≡ false) s

trim_left_space-word : (w rest : Str) → IsWord w → trim_left_space (w ++ rest) ≡ w ++ rest
unfolding trim_left_space
trim_left_space-word [] rest h = elim (h.0 refl) [ ]
trim_left_space-word (c ∷ w) rest h = rw (h.1.0) refl

reverse-IsWord : (w : Str) → IsWord w → IsWord (reverse w)
reverse-IsWord w h = (λ e. h.0 (sym (reverse-reverse w) ∙ ap reverse e), All-reverse _ w h.1)

trim_space-word : (s w : Str) → IsWord w → trim_space (91 ∷ (s ++ w)) ≡ 91 ∷ (s ++ w)
unfolding trim_space trim_left_space is_space
trim_space-word s w h =
    rw
      (
        reverse-append (91 ∷ s) w,
        trim_left_space-word (reverse w) (reverse (91 ∷ s)) (reverse-IsWord w h),
        ← reverse-append (91 ∷ s) w,
      )
      (reverse-reverse (91 ∷ (s ++ w)))

re_space_of : (c : ℕ) → is_space c ≡ false → not (is_re_space c) ≡ true
unfolding is_space
re_space_of c h = ground arith

word_bytes : (w : Str) → IsWord w → All (λ c. not (is_re_space c) ≡ true) w
word_bytes w h = All-map re_space_of w h.1

-- A space, and then a word.
one_space :
    (c : ℕ) (w : Str)
    → not (is_re_space c) ≡ true
    → span is_re_space (32 ∷ c ∷ w) ≡ (32 ∷ [], c ∷ w)
unfolding span
one_space c w h = let no : is_re_space c ≡ false = ground (arith, h) in simp no refl

whole_match :
    (host : Str) (a : ℕ) (alg : Str) (k : ℕ) (key : Str)
    → match_end host [] (a ∷ alg) (k ∷ key, [])
      ≡ some (record { host = host; port = []; alg = a ∷ alg; key = k ∷ key })
unfolding match_end text_beq span
whole_match host a alg k key = refl

words_match :
    (host : Str) (a : ℕ) (alg : Str) (k : ℕ) (key : Str)
    → All (λ c. not (is_re_space c) ≡ true) (a ∷ alg)
    → All (λ c. not (is_re_space c) ≡ true) (k ∷ key)
    → match_words host [] (span is_re_space (32 ∷ a ∷ (alg ++ (32 ∷ k ∷ key))))
      ≡ some (record { host = host; port = []; alg = a ∷ alg; key = k ∷ key })
unfolding match_words match_alg match_key text_beq
words_match host a alg k key h g = rw (one_space a (alg ++ (32 ∷ k ∷ key)) h.0) (
    rw (span-stops (λ c. not (is_re_space c)) (a ∷ alg) 32 (k ∷ key) h refl) (
      rw (one_space k key g.0)
        (rw (span_whole (λ c. not (is_re_space c)) (k ∷ key) g) (whole_match host a alg k key))))

not_bracket : (c : ℕ) → not (c == 93) ≡ true → (c == 93) ≡ false
not_bracket c h = ground arith

sig_match :
    (host : Str) (a : ℕ) (alg : Str) (k : ℕ) (key : Str)
    → host ≢ []
    → All (λ c. not (c == 93) ≡ true) host
    → All (λ c. not (is_re_space c) ≡ true) (a ∷ alg)
    → All (λ c. not (is_re_space c) ≡ true) (k ∷ key)
    → match_sig (91 ∷ (host ++ (93 ∷ 32 ∷ a ∷ (alg ++ (32 ∷ k ∷ key)))))
      ≡ some (record { host = host; port = []; alg = a ∷ alg; key = k ∷ key })
unfolding match_sig match_host match_port
sig_match host a alg k key n b h g =
    rw (span-stops (λ c. not (c == 93)) host 93 (32 ∷ a ∷ (alg ++ (32 ∷ k ∷ key))) b refl)
      (rw (eq_ne host [] n) (words_match host a alg k key h g))

-- The text of a signature in Kasten's form.
abbrev pub signature_text : Str → Str → Str → Str → Str
signature_text host port alg key = 91 ∷ ((host ++ (58 ∷ port)) ++ (93 ∷ 32 ∷ (alg ++ (32 ∷ key))))

address_bytes :
    (host port : Str)
    → All (λ c. not (c == 93) ≡ true) host
    → All (λ c. is_digit c ≡ true) port
    → All (λ c. not (c == 93) ≡ true) (host ++ (58 ∷ port))
address_bytes host port h d =
    All-append _ host (58 ∷ port) h (refl, All-map (λ c t. ground (arith, t)) port d)

address_text : (host port : Str) → host ++ (58 ∷ port) ≢ []
address_text [] port e = cc
address_text (c ∷ host) port e = cc

key_last :
    (address alg key : Str)
    → (address ++ (93 ∷ 32 ∷ (alg ++ (32 ∷ [])))) ++ key
      ≡ address ++ (93 ∷ 32 ∷ (alg ++ (32 ∷ key)))
key_last address alg key =
    append_assoc address (93 ∷ 32 ∷ (alg ++ (32 ∷ []))) key
    ∙ ap (λ t. address ++ (93 ∷ 32 ∷ t)) (append_assoc alg (32 ∷ []) key)

signature_trimmed :
    (host port alg key : Str)
    → IsWord key
    → trim_space (signature_text host port alg key) ≡ signature_text host port alg key
signature_trimmed host port alg key k =
    subst (λ t. trim_space (91 ∷ t) ≡ 91 ∷ t) (key_last (host ++ (58 ∷ port)) alg key)
      (trim_space-word _ key k)

-- A text "[host:port] alg key", with a host without "]", a port of digits that is an integer, and
-- two words without spaces, is read as the key "alg key".
pub parse_host_key_signature-signature_text :
    {P : Type 0} (parse_authorized_key : Str → Option P) (host port alg key : Str) (n : ℤ)
    → All (λ c. not (c == 93) ≡ true) host
    → All (λ c. is_digit c ≡ true) port
    → parse_int port ≡ some n
    → IsWord alg
    → IsWord key
    → parse_host_key_signature parse_authorized_key (signature_text host port alg key)
      ≡ key_found parse_authorized_key (parse_authorized_key (alg ++ (32 ∷ key)))
unfolding parse_host_key_signature key_of_match key_of_address text_beq
parse_host_key_signature-signature_text pak host port [] key n h d e a k = elim (a.0 refl) [ ]
parse_host_key_signature-signature_text pak host port (x ∷ alg) [] n h d e a k = elim (k.0 refl) [ ]
parse_host_key_signature-signature_text pak host port (x ∷ alg) (y ∷ key) n h d e a k =
    let address = host ++ (58 ∷ port) in
    rw (signature_trimmed host port (x ∷ alg) (y ∷ key) k) (
      rw
        (sig_match address x alg y key (address_text host port) (address_bytes host port h d)
          (word_bytes (x ∷ alg) a) (word_bytes (y ∷ key) k))
        (rw (net_split-port host port n d e) refl))
