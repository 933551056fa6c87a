-- ===== src/Router/Outcome.antt =====
-- Which route answers a method and a path, and what is said when none does.
use vendorfake.Prelude.{
  String, ◌≡◌, refl, ap, ◌∙◌, sym, ◌↔◌, ◌⊎◌, inl, inr, Bool, true, false, Option, none, some, List,
  [], ◌∷◌, ◌++◌, map, keep, arith, Bool-cases, All, In, append-nil, append_assoc, subst,
}
use vendorfake.Text.{
  text_eq, text_eq_iff, mem_text, mem_text_iff, mem-sorted, Member, SortedText, sorted-SortedText,
}
use vendorfake.Dict.{Dict}
use vendorfake.Errors.{Result, ok, err, Error, Result-cases}
use vendorfake.Router.Shape.{Reads, fit-Reads, fit-none}
use vendorfake.Router.Defs.{
  Route, Compiled, matched, no_route, split_path, upper, distinct, fit, allowed, give_up, scan,
  find_route,
}

mem-distinct : (n : String) (ns : List String) → mem_text n (distinct ns) ≡ mem_text n ns
unfolding distinct
mem-distinct n [] = refl
mem-distinct n (m ∷ ns) = elim (Bool-cases (mem_text m (distinct ns))) [
  | inl again ↦ elim (Bool-cases (text_eq m n)) [
    | inl same ↦
        let equal : m ≡ n = (text_eq_iff m n).0 same in
        let there = subst (λ k. mem_text k (distinct ns) ≡ true) equal again in
        ground (arith, again, same, there)
    | inr other ↦ ground (arith, again, other, mem-distinct n ns)
  ]
  | inr first ↦ ground (arith, first, mem-distinct n ns)
]

module _ (unquote : String → Option String) (path method : String) where
  abbrev pub wanted : List String
  wanted = split_path path

  abbrev pub fitted : Compiled → Result (Option (Dict String))
  fitted c = fit unquote path wanted c

  abbrev pub same_method : Compiled → Bool
  same_method c = text_eq (upper (c.route).method) (upper method)

  -- The route has the shape of the path.
  abbrev pub has_path : Compiled → Bool
  has_path c = elim (fitted c) [ ok (some params) ↦ true | ok none ↦ false | err e ↦ false ]

  -- The route does not answer: the path has another shape, or the method is another.
  abbrev pub Passes : Compiled → Type 0
  Passes c =
      (fitted c ≡ ok none)
      ⊎ ((params : Dict String) × (fitted c ≡ ok (some params)) × (same_method c ≡ false))

  -- The route does not answer: its template does not read the segments of the path, or its method
  -- is another.
  abbrev pub IsPassedOver : Compiled → Type 0
  IsPassedOver c =
      ((params : Dict String) → Reads unquote path c.segments wanted [] params → ⊥)
      ⊎ (same_method c ≡ false)

  passed_over : (c : Compiled) → Passes c → IsPassedOver c
  passed_over c (inl elsewhere) = inl (λ params. fit-none unquote path wanted c params elsewhere)
  passed_over c (inr (params, reads, other)) = inr other

  -- The first route of the table that has the shape of the path and the method.
  pub record Answers (table : List Compiled) (route : Route) (params : Dict String) : Type 0 where
    pub before : List Compiled
    pub after : List Compiled
    pub winner : Compiled
    pub in_order : table ≡ before ++ winner ∷ after
    pub earlier_pass : All IsPassedOver before
    pub reads : Reads unquote path winner.segments wanted [] params
    pub by_method : same_method winner ≡ true
    pub is_route : winner.route ≡ route

  scan_elsewhere :
      (acc : List Compiled) (c : Compiled) (cs : List Compiled)
      → fitted c ≡ ok none
      → scan unquote path method wanted acc (c ∷ cs) ≡ scan unquote path method wanted acc cs
  unfolding scan
  scan_elsewhere acc c cs e = rw e refl

  scan_other_method :
      (acc : List Compiled) (c : Compiled) (cs : List Compiled) (params : Dict String)
      → fitted c ≡ ok (some params)
      → same_method c ≡ false
      → scan unquote path method wanted acc (c ∷ cs)
        ≡ scan unquote path method wanted (acc ++ c ∷ []) cs
  unfolding scan
  scan_other_method acc c cs params e other = ground (arith, e, other)

  scan_here :
      (acc : List Compiled) (c : Compiled) (cs : List Compiled) (params : Dict String)
      → fitted c ≡ ok (some params)
      → same_method c ≡ true
      → scan unquote path method wanted acc (c ∷ cs) ≡ ok (matched c.route params)
  unfolding scan
  scan_here acc c cs params e same = ground (arith, e, same)

  Answers-later :
      (c : Compiled) (cs : List Compiled) (route : Route) (params : Dict String)
      → Passes c
      → Answers cs route params
      → Answers (c ∷ cs) route params
  Answers-later c cs route params passes a = record {
    before = c ∷ a.before;
    after = a.after;
    winner = a.winner;
    in_order = ap (λ xs. c ∷ xs) a.in_order;
    earlier_pass = (passed_over c passes, a.earlier_pass);
    reads = a.reads;
    by_method = a.by_method;
    is_route = a.is_route;
  }

  scan_refused :
      (acc : List Compiled) (c : Compiled) (cs : List Compiled) (e : Error)
      → fitted c ≡ err e
      → scan unquote path method wanted acc (c ∷ cs) ≡ err e
  unfolding scan
  scan_refused acc c cs e refused = ground (arith, refused)

  scan-matched :
      (acc cs : List Compiled) (route : Route) (params : Dict String)
      → scan unquote path method wanted acc cs ≡ ok (matched route params)
      → Answers cs route params
  unfolding scan
  scan-matched acc [] route params h = nothing_matched acc h
    where
      nothing_matched :
          (acc : List Compiled)
          → ok (give_up acc) ≡ ok (matched route params)
          → Answers [] route params
      nothing_matched [] h = cc
      nothing_matched (a ∷ more) h = cc
  scan-matched acc (c ∷ cs) route params h = elim (Result-cases (fitted c)) [
    | inl (e, refused) ↦ let refusal = sym (scan_refused acc c cs e refused) ∙ h in cc
    | inr (none, elsewhere) ↦
        Answers-later c cs route params (inl elsewhere)
          (scan-matched acc cs route params (sym (scan_elsewhere acc c cs elsewhere) ∙ h))
    | inr (some ps, reads) ↦ elim (Bool-cases (same_method c)) [
      | inl same ↦
          let answer = sym (scan_here acc c cs ps reads same) ∙ h in
          record {
            before = [];
            after = cs;
            winner = c;
            in_order = refl;
            earlier_pass = tt;
            reads =
                let same : ps ≡ params = ground (arith, answer) in
                subst (Reads unquote path c.segments wanted []) same
                  (fit-Reads unquote path wanted c ps reads);
            by_method = same;
            is_route = ground (arith, answer);
          }
      | inr other ↦ Answers-later c cs route params (inr (ps, reads, other)) (
          scan-matched (acc ++ c ∷ []) cs route params
            (sym (scan_other_method acc c cs ps reads other) ∙ h))
    ]
  ]

  scan-gives_up :
      (acc cs : List Compiled)
      → All Passes cs
      → scan unquote path method wanted acc cs ≡ ok (give_up (acc ++ keep has_path cs))
  unfolding scan
  scan-gives_up acc [] h = ap (λ xs. ok (give_up xs)) (sym (append-nil acc))
  scan-gives_up acc (c ∷ cs) h = elim h.0 [
    | inl elsewhere ↦
        let no_path : has_path c ≡ false = ground (arith, elsewhere) in
        scan_elsewhere acc c cs elsewhere ∙ scan-gives_up acc cs h.1 ∙ rw no_path refl
    | inr (params, reads, other) ↦
        let path_here : has_path c ≡ true = ground (arith, reads) in
        scan_other_method acc c cs params reads other
        ∙ scan-gives_up (acc ++ c ∷ []) cs h.1
        ∙ ap (λ xs. ok (give_up xs)) (append_assoc acc (c ∷ []) (keep has_path cs))
        ∙ rw path_here refl
  ]

  Member-methods :
      (n : String) (cs : List Compiled)
      → Member n (map (λ (c : Compiled). upper (c.route).method) cs)
        ↔ ((c : Compiled) × In c cs × (upper (c.route).method ≡ n))
  Member-methods n [] = (λ m. absurd m, λ (c, m, e). absurd m)
  Member-methods n (c ∷ cs) = (
    λ m. elim m [
      | inl same ↦ (c, inl refl, same)
      | inr later ↦ let (d, listed, e) = (Member-methods n cs).0 later in (d, inr listed, e)
    ],
    λ (d, m, e). elim m [
      | inl same ↦ inl (ap (λ (x : Compiled). upper (x.route).method) same ∙ e)
      | inr later ↦ inr ((Member-methods n cs).1 (d, later, e))
    ],
  )

  Member-allowed :
      (n : String) (cs : List Compiled)
      → Member n (allowed cs) ↔ Member n (map (λ (c : Compiled). upper (c.route).method) cs)
  Member-allowed n cs =
      let methods = map (λ (c : Compiled). upper (c.route).method) cs in
      let same = mem-sorted n (distinct methods) ∙ mem-distinct n methods in
      (
        λ m. (mem_text_iff n methods).0 (sym same ∙ (mem_text_iff n (allowed cs)).1 m),
        λ m. (mem_text_iff n (allowed cs)).0 (same ∙ (mem_text_iff n methods).1 m),
      )

-- The route that answers is the first of the table whose template reads the segments of the path
-- and that has the method, whatever the case of its letters: the template has as many segments, its
-- literal ones are those of the path, and each parameter gets what its segment decodes to.
pub find_route-matched :
    (unquote : String → Option String) (table : List Compiled) (method path : String)
    (route : Route) (params : Dict String)
    → find_route unquote table method path ≡ ok (matched route params)
    → Answers unquote path method table route params
unfolding find_route
find_route-matched unquote table method path route params h =
    scan-matched unquote path method [] table route params h

-- When no route has both the shape of the path and the method, the answer tells "no such path"
-- from "another method": it is the first exactly if no route has the shape of the path, and else it
-- lists, sorted, exactly the methods of the routes that have it.
pub find_route-gives_up :
    (unquote : String → Option String) (table : List Compiled) (method path : String)
    → All (Passes unquote path method) table
    → let candidates = keep (has_path unquote path method) table in
      (find_route unquote table method path ≡ ok (give_up candidates))
      × ((give_up candidates ≡ no_route) ↔ (candidates ≡ []))
      × SortedText (allowed candidates)
      × ((n : String)
          → Member n (allowed candidates)
            ↔ ((c : Compiled) × In c candidates × (upper (c.route).method ≡ n)))
unfolding find_route
find_route-gives_up unquote table method path h =
    let candidates = keep (has_path unquote path method) table in
    (
      scan-gives_up unquote path method [] table h,
      gives_no_route candidates,
      sorted-SortedText (distinct (map (λ (c : Compiled). upper (c.route).method) candidates)),
      λ n. (
        λ m.
            (Member-methods unquote path method n candidates).0
              ((Member-allowed unquote path method n candidates).0 m),
        λ m.
            (Member-allowed unquote path method n candidates).1
              ((Member-methods unquote path method n candidates).1 m),
      ),
    )
  where
    gives_no_route : (cs : List Compiled) → (give_up cs ≡ no_route) ↔ (cs ≡ [])
    gives_no_route [] = (λ e. refl, λ e. refl)
    gives_no_route (c ∷ cs) = (λ e. cc, λ e. cc)
