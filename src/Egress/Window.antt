-- ===== src/Egress/Window.antt =====
-- The window that reaches the model.
use asterixdb_mcp_server.Prelude.{
  ℕ, suc, ◌+◌, ◌≤◌, ◌<◌, min, ◌≡◌, refl, sym, ap, ◌∙◌, ◌⊎◌, inl, inr, List, [], ◌∷◌, ◌++◌, length,
  take, ltb, arith, length-append, length-take, take-take, Bool-cases,
}
use mathlib.Core.List.{append-nil, append_assoc}
use asterixdb_mcp_server.Json.{Json}
use asterixdb_mcp_server.Egress.{deliver, truncate_for_llm}

module _ (row_bytes : Json → ℕ) where
  -- The bytes of some rows.
  abbrev pub total_bytes : List Json → ℕ
  total_bytes [] = 0
  total_bytes (r ∷ rs) = row_bytes r + total_bytes rs

  -- `delivered` is the longest run of leading rows that fits: at most `max_rows`, and within
  -- `max_bytes` unless it is a single row. It stops only where the next row would not fit.
  pub record IsWindow (rows : List Json) (max_rows max_bytes : ℕ) (delivered : List Json)
      : Type 0 where
    pub leading : delivered ≡ take (length delivered) rows
    pub within_rows : length delivered ≤ max_rows
    pub within_bytes : (length delivered ≤ 1) ⊎ (total_bytes delivered ≤ max_bytes)
    pub longest :
        (length delivered ≡ min max_rows (length rows))
        ⊎ (max_bytes < total_bytes (take (suc (length delivered)) rows))
    pub some_row : 0 < max_rows → 0 < length rows → 0 < length delivered

  -- The same, of the loop's rest.
  record Extends (max_bytes : ℕ) (rows d : List Json) (b : ℕ) (out : List Json × ℕ) : Type 0 where
    taken : ℕ
    taken_le : taken ≤ length rows
    rows_out : out.0 ≡ d ++ take taken rows
    bytes_out : out.1 ≡ b + total_bytes (take taken rows)
    fits : (taken ≡ 0) ⊎ ((length d + taken ≤ 1) ⊎ (out.1 ≤ max_bytes))
    stops :
        (taken ≡ length rows)
        ⊎ ((0 < length d + taken) × (max_bytes < b + total_bytes (take (suc taken) rows)))

  stops_cons :
      {max_bytes k : ℕ} (row : Json) (rows : List Json) (b taken n : ℕ)
      → 0 < n
      → (taken ≡ length rows)
        ⊎ ((0 < k) × (max_bytes < (b + row_bytes row) + total_bytes (take (suc taken) rows)))
      → (suc taken ≡ suc (length rows))
        ⊎ ((0 < n) × (max_bytes < b + (row_bytes row + total_bytes (take (suc taken) rows))))
  stops_cons row rows b taken n pos (inl e) = inl (ap suc e)
  stops_cons row rows b taken n pos (inr h) = inr (pos, omega (arith, h.1))

  fits_cons :
      {max_bytes out c n : ℕ} (rows : List Json) (taken : ℕ)
      → out ≡ c + total_bytes (take taken rows)
      → c ≤ max_bytes
      → 2 ≤ n
      → (taken ≡ 0) ⊎ ((n + taken ≤ 1) ⊎ (out ≤ max_bytes))
      → out ≤ max_bytes
  fits_cons {out = out} {c = c} rows taken bytes room two (inl e) =
      let bytes0 : out ≡ c + total_bytes (take 0 rows) = rw e at bytes in omega arith
  fits_cons rows taken bytes room two (inr (inl h)) = absurd (omega arith)
  fits_cons rows taken bytes room two (inr (inr h)) = h

  deliver-Extends :
      (max_bytes : ℕ) (rows d : List Json) (b : ℕ)
      → Extends max_bytes rows d b (deliver row_bytes max_bytes rows d b)
  unfolding deliver
  deliver-Extends max_bytes [] d b = record {
    taken = 0;
    taken_le = omega arith;
    rows_out = sym (append-nil d);
    bytes_out = omega arith;
    fits = inl refl;
    stops = inl refl;
  }
  deliver-Extends max_bytes (row ∷ rows) [] b =
      let r = deliver-Extends max_bytes rows (row ∷ []) (b + row_bytes row) in
      record {
        taken = suc r.taken;
        taken_le = omega (arith, r.taken_le);
        rows_out = r.rows_out;
        bytes_out = omega (arith, r.bytes_out);
        fits = omega (arith, r.fits);
        stops = stops_cons row rows b r.taken (0 + suc r.taken) (omega arith) r.stops;
      }
  deliver-Extends max_bytes (row ∷ rows) (x ∷ d) b =
      elim (Bool-cases (ltb max_bytes (b + row_bytes row))) [
        | inl full ↦
            rw (full, deliver)
              (record {
                taken = 0;
                taken_le = omega arith;
                rows_out = sym (append-nil (x ∷ d));
                bytes_out = omega arith;
                fits = inl refl;
                stops = inr (omega arith, ground arith);
              })
        | inr room ↦
            let r = deliver-Extends max_bytes rows ((x ∷ d) ++ (row ∷ [])) (b + row_bytes row) in
            rw (room, deliver)
              (record {
                taken = suc r.taken;
                taken_le = omega (arith, r.taken_le);
                rows_out = r.rows_out ∙ append_assoc (x ∷ d) (row ∷ []) (take r.taken rows);
                bytes_out = omega (arith, r.bytes_out);
                fits = inr (
                    inr (
                      fits_cons rows r.taken r.bytes_out (ground arith)
                        (omega (arith, length-append (x ∷ d) (row ∷ []))) r.fits));
                stops =
                    stops_cons row rows b r.taken (suc (length d) + suc r.taken) (omega arith)
                      r.stops;
              })
      ]

  IsWindow-of_Extends :
      (rows : List Json) (max_rows max_bytes : ℕ) (out : List Json × ℕ)
      → Extends max_bytes (take max_rows rows) [] 0 out
      → IsWindow rows max_rows max_bytes out.0 × (out.1 ≡ total_bytes out.0)
  IsWindow-of_Extends rows max_rows max_bytes out x = (
    record {
      leading = rw len taken_rows;
      within_rows = omega (arith, len, short);
      within_bytes = bytes_within x.fits;
      longest = rw len (longest x.stops);
      some_row = λ p q. some_row p q x.stops;
    },
    bytes,
  )
    where
      short : x.taken ≤ min max_rows (length rows)
      short = omega (arith, x.taken_le, length-take max_rows rows)

      len : length out.0 ≡ x.taken
      len = rw x.rows_out (omega (arith, length-take x.taken (take max_rows rows), x.taken_le))

      taken_rows : out.0 ≡ take x.taken rows
      taken_rows = x.rows_out ∙ take-take x.taken max_rows rows (omega (arith, short))

      bytes : out.1 ≡ total_bytes out.0
      bytes = rw x.rows_out (omega (arith, x.bytes_out))

      bytes_within :
          (x.taken ≡ 0) ⊎ ((0 + x.taken ≤ 1) ⊎ (out.1 ≤ max_bytes))
          → (length out.0 ≤ 1) ⊎ (total_bytes out.0 ≤ max_bytes)
      bytes_within (inl e) = inl (omega (arith, len))
      bytes_within (inr (inl h)) = inl (omega (arith, len))
      bytes_within (inr (inr h)) = inr (rw bytes at h)

      longest :
          (x.taken ≡ length (take max_rows rows))
            ⊎ ((0 < 0 + x.taken)
                × (max_bytes < 0 + total_bytes (take (suc x.taken) (take max_rows rows))))
          → (x.taken ≡ min max_rows (length rows))
            ⊎ (max_bytes < total_bytes (take (suc x.taken) rows))
      longest (inl e) = inl (e ∙ length-take max_rows rows)
      longest (inr (pos, over)) = elim (Bool-cases (ltb x.taken max_rows)) [
        | inl more ↦
            inr (rw (take-take (suc x.taken) max_rows rows (ground arith)) at (the_bound over))
        | inr full ↦ inl (ground (arith, short))
      ]
        where
          the_bound :
              max_bytes < 0 + total_bytes (take (suc x.taken) (take max_rows rows))
              → max_bytes < total_bytes (take (suc x.taken) (take max_rows rows))
          the_bound h = omega arith

      some_row :
          0 < max_rows
          → 0 < length rows
          → (x.taken ≡ length (take max_rows rows))
            ⊎ ((0 < 0 + x.taken)
                × (max_bytes < 0 + total_bytes (take (suc x.taken) (take max_rows rows))))
          → 0 < length out.0
      some_row p q (inl e) = omega (arith, len, length-take max_rows rows)
      some_row p q (inr h) = omega (arith, len, h.0)

  -- Truncation delivers the longest leading run of the rows that fits the row and the byte ceiling,
  -- and at least one row where the result and the row ceiling allow one. The metadata tells the
  -- true totals, and `truncated` holds exactly if a row is missing.
  pub truncate_for_llm-IsWindow :
      (rows : List Json) (max_rows max_bytes : ℕ)
      → let (delivered, meta) = truncate_for_llm row_bytes rows max_rows max_bytes in
        IsWindow rows max_rows max_bytes delivered
        × (meta.total_rows ≡ length rows)
        × (meta.delivered_rows ≡ length delivered)
        × (meta.delivered_bytes ≡ total_bytes delivered)
        × (meta.truncated ≡ ltb (length delivered) (length rows))
  unfolding truncate_for_llm
  truncate_for_llm-IsWindow rows max_rows max_bytes =
      let w =
        IsWindow-of_Extends rows max_rows max_bytes _
          (deliver-Extends max_bytes (take max_rows rows) [] 0) in
      (w.0, refl, refl, w.1, refl)
