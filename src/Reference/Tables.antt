-- ===== src/Reference/Tables.antt =====
-- The tables of src/fleetstream/simulator/reference.py: vehicle types with their top speed and tank,
-- manufacturers with their models, names, and the waypoints of the routes.
use fleet_stream_real_time_f.Prelude.{String, str_eq, [], ◌∷◌, if◌then◌else◌}
use fleet_stream_real_time_f.Float.{Float}
use fleet_stream_real_time_f.Random.{Choices}
use fleet_stream_real_time_f.Reference.Geometry.{Point}

abbrev pub regions : Choices String
regions = record { first = "Pune"; rest = "Mumbai" ∷ "Nashik" ∷ "Nagpur" ∷ "Aurangabad" ∷ [] }

abbrev pub fleet_owners : Choices String
fleet_owners = record {
  first = "FleetStream Logistics";
  rest = "Deccan Haulage" ∷ "Sahyadri Transport" ∷ [];
}

abbrev pub driver_categories : Choices String
driver_categories = record { first = "senior"; rest = "standard" ∷ "probationary" ∷ [] }

abbrev pub license_types : Choices String
license_types = record { first = "LMV"; rest = "HMV" ∷ "HTV" ∷ [] }

abbrev pub first_names : Choices String
first_names = record {
  first = "Amit";
  rest =
      "Priya" ∷ "Rahul" ∷ "Sneha" ∷ "Vikram" ∷ "Anjali" ∷ "Rohan" ∷ "Kavita" ∷ "Suresh" ∷ "Meera"
      ∷ "Arjun" ∷ "Divya" ∷ "Nikhil" ∷ "Pooja" ∷ "Sanjay" ∷ "Neha" ∷ [];
}

abbrev pub last_names : Choices String
last_names = record {
  first = "Sharma";
  rest =
      "Patil" ∷ "Deshmukh" ∷ "Iyer" ∷ "Joshi" ∷ "Kulkarni" ∷ "Nair" ∷ "Reddy" ∷ "Gupta" ∷ "Bhosale"
      ∷ "Chavan" ∷ "Rao" ∷ [];
}

abbrev pub manufacturers : Choices (String × Choices String)
manufacturers = record {
  first = ("Tata Motors", record { first = "Ace"; rest = "Intra V30" ∷ "Prima 4928" ∷ [] });
  rest =
      ("Ashok Leyland", record { first = "Dost+"; rest = "Boss 1115" ∷ "Captain 2523" ∷ [] })
      ∷ ("Mahindra", record { first = "Bolero Pikup"; rest = "Furio 7" ∷ "Blazo X28" ∷ [] })
      ∷ ("Eicher", record { first = "Pro 2049"; rest = "Pro 3015" ∷ "Pro 6028" ∷ [] })
      ∷ [];
}

module _ {R : Type 0} ⦃f : Float R⦄ where
  open f use {lit}

  abbrev pub vehicle_types : Choices (String × R × R)
  vehicle_types = record {
    first = ("panel_van", lit 120 0, lit 70 0);
    rest =
        ("box_truck", lit 100 0, lit 150 0)
        ∷ ("semi_trailer", lit 90 0, lit 400 0)
        ∷ ("refrigerated_van", lit 110 0, lit 90 0)
        ∷ ("light_pickup", lit 130 0, lit 60 0)
        ∷ [];
  }

  abbrev pub route_seeds : Choices (String × String × Choices (Point R))
  route_seeds = record {
    first = (
      "R001",
      "Pune - Mumbai Expressway",
      record {
        first = (lit 185204 4, lit 738567 4);
        rest =
            (lit 186298 4, lit 737997 4)
            ∷ (lit 1875 2, lit 734 1)
            ∷ (lit 1892 2, lit 7333 2)
            ∷ (lit 19076 3, lit 728777 4)
            ∷ [];
      },
    );
    rest =
        (
          "R002",
          "Pune - Nashik Highway",
          record {
            first = (lit 185204 4, lit 738567 4);
            rest =
                (lit 1875 2, lit 7388 2)
                ∷ (lit 191 1, lit 739 1)
                ∷ (lit 196 1, lit 7385 2)
                ∷ (lit 199975 4, lit 737898 4)
                ∷ [];
          },
        )
        ∷ (
          "R003",
          "Pune - Nagpur Corridor",
          record {
            first = (lit 185204 4, lit 738567 4);
            rest =
                (lit 189 1, lit 745 1)
                ∷ (lit 194 1, lit 756 1)
                ∷ (lit 202 1, lit 775 1)
                ∷ (lit 211458 4, lit 790882 4)
                ∷ [];
          },
        )
        ∷ (
          "R004",
          "Pune - Aurangabad Route",
          record {
            first = (lit 185204 4, lit 738567 4);
            rest =
                (lit 1895 2, lit 741 1)
                ∷ (lit 194 1, lit 746 1)
                ∷ (lit 198762 4, lit 753433 4)
                ∷ [];
          },
        )
        ∷ (
          "R005",
          "Pune City Distribution Loop",
          record {
            first = (lit 185204 4, lit 738567 4);
            rest =
                (lit 1856 2, lit 7391 2)
                ∷ (lit 1859 2, lit 7382 2)
                ∷ (lit 1851 2, lit 7379 2)
                ∷ (lit 185204 4, lit 738567 4)
                ∷ [];
          },
        )
        ∷ (
          "R006",
          "Pune - Satara Run",
          record {
            first = (lit 185204 4, lit 738567 4);
            rest =
                (lit 183 1, lit 739 1) ∷ (lit 18 0, lit 74 0) ∷ (lit 176805 4, lit 740183 4) ∷ [];
          },
        )
        ∷ [];
  }

  -- `_AGGRESSION_BY_CATEGORY`, of a category that is one of its keys
  abbrev pub aggression_by_category : String → R
  aggression_by_category c =
      if str_eq c "senior" then lit 6 1 else (if str_eq c "standard" then lit 1 0 else lit 16 1)
