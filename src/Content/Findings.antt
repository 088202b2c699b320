-- ===== src/Content/Findings.antt =====
-- `mechanical_findings` of src/mailmind/content/findings.py: what is decided of a message without a
-- model.
use Prim.Native.String.{String}
use ronny_email_worker.Prelude.{
  ℕ, ◌+◌, ◌≡◌, refl, Bool, ◌&&◌, ◌||◌, Option, none, some, List, [], ◌∷◌, ◌++◌, map, ◌==◌, ltb, leb,
  if◌then◌else◌, any, keep, take, length, is_empty, is_some,
}
use ronny_email_worker.Text.{Text, codes, text_eq, strip, sorted, distinct_texts, sorted_minus}
use ronny_email_worker.Models.{
  AddressRole, Link, MechanicalFinding, ParsedMessage, ParseStatus, Value,
}
use ronny_email_worker.Content.{Lexer, text_or_empty, text_or_none, body_text}

-- `_INVISIBLE_RANGES`
abbrev pub is_invisible : ℕ → Bool
is_invisible point =
    (leb 917504 point && leb point 917631)
    || (leb 8203 point && leb point 8207)
    || (leb 8234 point && leb point 8238)
    || (leb 8294 point && leb point 8297)

abbrev pub count_dots : Text → ℕ
count_dots [] = 0
count_dots (c ∷ t) = if c == 46 then count_dots t + 1 else count_dots t

-- `_registrable`: labels are dropped from the left until two are left.
unfoldable pub registrable : Text → Text
registrable [] = []
registrable (c ∷ t) =
    let shorter = registrable t in if ltb (count_dots (c ∷ t)) 2 then c ∷ t else shorter

-- `address.rpartition("@")[2]`
unfoldable pub domain_of : Text → Text
domain_of [] = []
domain_of (c ∷ t) =
    let later = domain_of t in if any (λ d. d == 64) t then later else if c == 64 then t else c ∷ t

abbrev pub finding : (code : String) → (detail : Text) → List (String × Value) → MechanicalFinding
finding code detail evidence = record { code = codes code; detail = detail; evidence = evidence }

abbrev pub optional : Option Text → Value
optional none = Value.null
optional (some t) = Value.text t

abbrev pub no_message_id : Option Text → List MechanicalFinding
no_message_id id =
    if is_some (text_or_none (text_or_empty id))
    then []
    else finding "no_message_id"
        (codes "The message has no Message-ID, so it cannot be matched across folders.") []
      ∷ []

abbrev pub malformed : ParsedMessage → List MechanicalFinding
malformed p = elim p.parse_status [
  | ParseStatus.partial ↦
      finding "malformed_mime"
        (codes "The message parsed with defects; parts of it may be missing.")
        (("detail", optional p.parse_detail) ∷ [])
      ∷ []
  | _ ↦ []
]

-- `bool(x)` and `x`, of a text that may be missing.
abbrev pub given : Option Text → Option Text
given o = text_or_none (text_or_empty o)

module _ (x : Lexer) where
  -- `_invisible_chars`
  abbrev pub invisible_chars : Text → List Text
  invisible_chars t = map x.describe (keep is_invisible t)

  abbrev pub invisible_in : (place : String) → Text → List MechanicalFinding
  invisible_in place t =
      if is_empty (invisible_chars t)
      then []
      else finding "invisible_characters"
          (codes "The "
            ++ (codes place
                ++ (codes " contains "
                    ++ (x.decimal (length (invisible_chars t))
                        ++ codes " character(s) that are present but do not render."))))
          (("where", Value.word place)
            ∷ ("characters", Value.texts (take 20 (sorted (distinct_texts (invisible_chars t)))))
            ∷ [])
        ∷ []

  -- `_host`
  abbrev pub host : Text → Option Text
  host url = text_or_none (x.lower (text_or_empty (x.hostname url)))

  abbrev pub text_host : Text → Option Text
  text_host t = elim (host t) [
    | some h ↦ some h
    | none ↦ if x.is_host_like (strip t) then text_or_none (x.lower (strip t)) else none
  ]

  abbrev pub mismatch : Link → (shown target : Text) → List MechanicalFinding
  mismatch link shown target =
      if text_eq (registrable shown) (registrable target)
      then []
      else finding "link_target_mismatch"
          (codes "A link reading " ++ (shown ++ (codes " goes to " ++ (target ++ codes "."))))
          (("text", Value.text link.text) ∷ ("target", Value.text link.target) ∷ [])
        ∷ []

  abbrev pub check_link : Link → List MechanicalFinding
  check_link link = elim (host link.target) [
    | none ↦ []
    | some target ↦ elim (text_host link.text) [
      | none ↦ []
      | some shown ↦ mismatch link shown target
    ]
  ]

  unfoldable pub check_links : List Link → List MechanicalFinding
  check_links [] = []
  check_links (link ∷ links) = check_link link ++ check_links links

  abbrev pub spoofs : (display address candidate : Text) → List MechanicalFinding
  spoofs display address candidate =
      if text_eq (x.lower candidate) address
      then []
      else finding "display_name_spoofs_address"
          (codes "The display name names "
            ++ (candidate ++ (codes ", but the message is from " ++ (address ++ codes "."))))
          (("display_name", Value.text display)
            ∷ ("claimed", Value.text candidate)
            ∷ ("actual", Value.text address)
            ∷ ("actual_domain", Value.text (domain_of address))
            ∷ [])
        ∷ []

  unfoldable pub spoofed : (display address : Text) → List Text → List MechanicalFinding
  spoofed display address [] = []
  spoofed display address (candidate ∷ candidates) =
      spoofs display address candidate ++ spoofed display address candidates

  -- A display name that names an address, where there are both.
  abbrev pub check_display : (display address : Option Text) → List MechanicalFinding
  check_display (some display) (some address) = spoofed display address (x.addresses_in display)
  check_display _ _ = []

  abbrev pub body_only : ParsedMessage → List Text
  body_only p =
      sorted_minus (map x.lower (x.addresses_in (body_text p)))
        (map (λ (a : AddressRole × Text × Option Text). a.1) p.addresses)

  abbrev pub check_body : ParsedMessage → List MechanicalFinding
  check_body p =
      if is_empty (body_only p)
      then []
      else finding "body_only_address" (codes "The body names addresses that appear in no header.")
          (("addresses", Value.texts (take 10 (body_only p))) ∷ [])
        ∷ []

  abbrev pub first_contact : Option Text → (is_known_sender : Bool) → List MechanicalFinding
  first_contact none known = []
  first_contact (some address) known =
      if known
      then []
      else finding "first_contact"
          (codes "No earlier message from " ++ (address ++ codes " is cached."))
          (("address", Value.text address) ∷ [])
        ∷ []

  abbrev pub readable_findings : ParsedMessage → Bool → List MechanicalFinding
  readable_findings p known =
      malformed p
      ++ (check_display (given p.from_display) (given p.from_address)
          ++ (invisible_in "subject" (text_or_empty p.subject)
              ++ (invisible_in "display_name" (text_or_empty p.from_display)
                  ++ (invisible_in "body" (body_text p)
                      ++ (check_links p.links
                          ++ (no_message_id p.message_id
                              ++ (check_body p ++ first_contact (given p.from_address) known)))))))

  -- `mechanical_findings`, with what its callback answers about the sender.
  unfoldable pub mechanical_findings :
      ParsedMessage → (is_known_sender : Bool) → List MechanicalFinding
  mechanical_findings p known = elim p.parse_status [
    | ParseStatus.unparseable ↦
        finding "unparseable"
          (codes "The message could not be parsed. It is not empty; it is unreadable.")
          (("detail", optional p.parse_detail) ∷ [])
        ∷ []
    | _ ↦ readable_findings p known
  ]

registrable_example : registrable (codes "mail.shop.example") ≡ codes "shop.example"
unfolding registrable
registrable_example = refl

domain_of_example : domain_of (codes "a@b@c.d") ≡ codes "c.d"
unfolding domain_of
domain_of_example = refl
