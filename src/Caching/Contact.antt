-- ===== src/Caching/Contact.antt =====
-- When a message is recorded as the first from its sender: `first_contact` of
-- src/mailmind/content/findings.py, through `record_mechanical_assessment` of src/mailmind/db/cache.py.
use Prim.Native.String.{String}
use ronny_email_worker.Prelude.{
  ℕ, ◌≢◌, ◌<◌, ◌≤◌, ◌≡◌, refl, ap, ◌∙◌, Bool, true, false, not, ◌&&◌, ◌||◌, Option, none, some,
  List, [], ◌∷◌, ◌++◌, map, ◌==◌, arith, All, any, Bool-cases, inl, inr, is_empty, if◌then◌else◌,
}
use ronny_email_worker.Text.{Text, codes, text_eq}
use ronny_email_worker.Models.{
  Message, ParsedMessage, ParseStatus, MechanicalFinding, Finding, Link,
}
use ronny_email_worker.Content.{Lexer, Reader, body_text, text_or_empty}
use ronny_email_worker.Content.Findings.{
  mechanical_findings, readable_findings, malformed, check_display, spoofed, spoofs, invisible_in,
  check_links, check_link, no_message_id, check_body, first_contact, given, invisible_chars,
  body_only, host, text_host, mismatch, registrable, finding, optional,
}
use ronny_email_worker.Caching.{
  Store, mechanical_assessment, mechanical_finding, sender_known, known_sender, is_address,
}
use ronny_email_worker.Caching.Rows.{known_sender-earlier}

abbrev pub says_first : MechanicalFinding → Bool
says_first f = text_eq f.code (codes "first_contact")

any-append :
    (xs ys : List MechanicalFinding)
    → any says_first (xs ++ ys) ≡ any says_first xs || any says_first ys
any-append [] ys = refl
any-append (x ∷ xs) ys = ground (arith, any-append xs ys)

-- What is put before a list and says nothing of a first contact.
any-skip :
    (xs ys : List MechanicalFinding)
    → any says_first xs ≡ false
    → any says_first (xs ++ ys) ≡ any says_first ys
any-skip xs ys h = ground (arith, any-append xs ys, h)

module _ (x : Lexer) where
  spoofed-silent :
      (display address : Text) (candidates : List Text)
      → any says_first (spoofed x display address candidates) ≡ false
  unfolding spoofed
  spoofed-silent display address [] = refl
  spoofed-silent display address (c ∷ cs) =
      any-skip (spoofs x display address c) (spoofed x display address cs)
        (elim (Bool-cases (text_eq (x.lower c) address)) [ inl e ↦ rw e refl | inr e ↦ rw e refl ])
      ∙ spoofed-silent display address cs

  check_display-silent :
      (display address : Option Text) → any says_first (check_display x display address) ≡ false
  check_display-silent none address = refl
  check_display-silent (some display) none = refl
  check_display-silent (some display) (some address) =
      spoofed-silent display address (x.addresses_in display)

  -- A finding that is there or not, and says something else.
  if-silent :
      (b : Bool) (f : MechanicalFinding)
      → says_first f ≡ false
      → any says_first (if b then [] else f ∷ []) ≡ false
  if-silent true f h = refl
  if-silent false f h = ground (arith, h)

  check_link-silent : (link : Link) → any says_first (check_link x link) ≡ false
  check_link-silent link = by_target (host x link.target)
    where
      by_shown :
          (target : Text) (o : Option Text)
          → any says_first (elim o [ none ↦ [] | some shown ↦ mismatch x link shown target ])
            ≡ false
      by_shown target none = refl
      by_shown target (some shown) =
          if-silent (text_eq (registrable shown) (registrable target)) _ refl

      by_target :
          (o : Option Text)
          → any says_first (elim o [
            | none ↦ []
            | some target ↦ elim (text_host x link.text) [
              | none ↦ []
              | some shown ↦ mismatch x link shown target
            ]
          ])
            ≡ false
      by_target none = refl
      by_target (some target) = by_shown target (text_host x link.text)

  check_links-silent : (links : List Link) → any says_first (check_links x links) ≡ false
  unfolding check_links
  check_links-silent [] = refl
  check_links-silent (link ∷ links) =
      any-skip (check_link x link) (check_links x links) (check_link-silent link)
      ∙ check_links-silent links

  malformed-silent : (p : ParsedMessage) → any says_first (malformed p) ≡ false
  malformed-silent p = by_status p.parse_status
    where
      by_status :
          (status : ParseStatus)
          → any says_first (elim status [
            | ParseStatus.partial ↦
                finding "malformed_mime"
                  (codes "The message parsed with defects; parts of it may be missing.")
                  (("detail", optional p.parse_detail) ∷ [])
                ∷ []
            | _ ↦ []
          ])
            ≡ false
      by_status ParseStatus.ok = refl
      by_status ParseStatus.partial = refl
      by_status ParseStatus.unparseable = refl

  invisible_in-silent :
      (place : String) (t : Text) → any says_first (invisible_in x place t) ≡ false
  invisible_in-silent place t = elim (Bool-cases (is_empty (invisible_chars x t))) [
    | inl e ↦ rw e refl
    | inr e ↦ rw e refl
  ]

  no_message_id-silent : (id : Option Text) → any says_first (no_message_id id) ≡ false
  no_message_id-silent none = refl
  no_message_id-silent (some []) = refl
  no_message_id-silent (some (c ∷ t)) = refl

  check_body-silent : (p : ParsedMessage) → any says_first (check_body x p) ≡ false
  check_body-silent p = elim (Bool-cases (is_empty (body_only x p))) [
    | inl e ↦ rw e refl
    | inr e ↦ rw e refl
  ]

  readable-first :
      (p : ParsedMessage) (known : Bool)
      → any says_first (readable_findings x p known)
        ≡ any says_first (first_contact x (given p.from_address) known)
  readable-first p known =
      any-skip (malformed p) _ (malformed-silent p)
      ∙ any-skip (check_display x (given p.from_display) (given p.from_address)) _
          (check_display-silent (given p.from_display) (given p.from_address))
      ∙ any-skip (invisible_in x "subject" (text_or_empty p.subject)) _
          (invisible_in-silent "subject" (text_or_empty p.subject))
      ∙ any-skip (invisible_in x "display_name" (text_or_empty p.from_display)) _
          (invisible_in-silent "display_name" (text_or_empty p.from_display))
      ∙ any-skip (invisible_in x "body" (body_text p)) _ (invisible_in-silent "body" (body_text p))
      ∙ any-skip (check_links x p.links) _ (check_links-silent p.links)
      ∙ any-skip (no_message_id p.message_id) _ (no_message_id-silent p.message_id)
      ∙ any-skip (check_body x p) _ (check_body-silent p)

  contact-known :
      (address : Text) (known : Bool)
      → any says_first (first_contact x (some address) known) ≡ not known
  contact-known address true = refl
  contact-known address false = refl

  -- A message that can be read, from an address: the finding is there exactly if it is not known.
  findings-first :
      (p : ParsedMessage) (known : Bool) (address : Text)
      → p.parse_status ≢ ParseStatus.unparseable
      → given p.from_address ≡ some address
      → any says_first (mechanical_findings x p known) ≡ not known
  unfolding mechanical_findings
  findings-first p known address readable from =
      by_status p.parse_status readable
      ∙ readable-first p known
      ∙ ap (λ o. any says_first (first_contact x o known)) from
      ∙ contact-known address known
    where
      by_status :
          (status : ParseStatus)
          → status ≢ ParseStatus.unparseable
          → any says_first (elim status [
            | ParseStatus.unparseable ↦
                finding "unparseable"
                  (codes "The message could not be parsed. It is not empty; it is unreadable.")
                  (("detail", optional p.parse_detail) ∷ [])
                ∷ []
            | _ ↦ readable_findings x p known
          ])
            ≡ any says_first (readable_findings x p known)
      by_status ParseStatus.ok h = refl
      by_status ParseStatus.partial h = refl
      by_status ParseStatus.unparseable h = elim (h refl) [ ]

module _ (r : Reader) where
  any-map :
      (fs : List MechanicalFinding)
      → any
          (λ (f : Finding). text_eq f.code (codes "first_contact"))
          (map (mechanical_finding r) fs)
        ≡ any says_first fs
  any-map [] = refl
  any-map (f ∷ fs) = ap (λ b. says_first f || b) (any-map fs)

  sender-known :
      (s : Store) (row : Message) (p : ParsedMessage) (c : ℕ) (t : Text)
      → p.from_address ≡ some (c ∷ t)
      → sender_known r s row p ≡ known_sender s row.account_id (c ∷ t) row.id
  unfolding sender_known
  sender-known s row p c t e = ground (arith, e)

  -- What is recorded as a first contact is one: for a message that could be read and has a sender,
  -- where the rows before it have smaller ids and those after it, its own included, do not, the
  -- mechanical assessment has a first_contact finding exactly if no message before it in the account
  -- is from the same address, however many have been cached since.
  pub first_contact_lem :
      (s : Store) (row : Message) (p : ParsedMessage) (c : ℕ) (t : Text) (rows more : List Message)
      → p.from_address ≡ some (c ∷ t)
      → p.parse_status ≢ ParseStatus.unparseable
      → s.messages ≡ rows ++ more
      → All (λ (m : Message). m.id < row.id) rows
      → All (λ (m : Message). row.id ≤ m.id) more
      → any
          (λ (f : Finding). text_eq f.code (codes "first_contact"))
          (mechanical_assessment r s row p).findings
        ≡ not (
            any
              (λ (m : Message). m.account_id == row.account_id && is_address (c ∷ t) m.from_address)
              rows)
  first_contact_lem s row p c t rows more from readable split before after =
      any-map (mechanical_findings r.lexer p (sender_known r s row p))
      ∙ findings-first r.lexer p (sender_known r s row p) (c ∷ t) readable (ap given from)
      ∙ ap not (
          sender-known s row p c t from
          ∙ known_sender-earlier r s row.account_id row.id (c ∷ t) rows more split before after)
