-- ===== src/Categorization/Catalog.antt =====
-- The catalogue of categories and the keywords of services/categorization-service/infra/categorizers.py,
-- which services/finance-service/infra/categorizers.py repeats.
use finty.Base.{List, [], ◌∷◌, ◌++◌, map}
use finty.Base.Text.{Text, codes}
use finty.Finance.ValueObjects.{TransactionType, income, expense}

abbrev pub category_food : Text
category_food = codes "Alimentación"

abbrev pub category_transport : Text
category_transport = codes "Transporte"

abbrev pub category_housing : Text
category_housing = codes "Vivienda"

abbrev pub category_utilities : Text
category_utilities = codes "Servicios públicos"

abbrev pub category_health : Text
category_health = codes "Salud"

abbrev pub category_education : Text
category_education = codes "Educación"

abbrev pub category_entertainment : Text
category_entertainment = codes "Entretenimiento"

abbrev pub category_shopping : Text
category_shopping = codes "Compras"

abbrev pub category_debt : Text
category_debt = codes "Deudas y créditos"

abbrev pub category_salary : Text
category_salary = codes "Salario"

abbrev pub category_freelance : Text
category_freelance = codes "Freelance"

abbrev pub category_investments : Text
category_investments = codes "Inversiones"

abbrev pub category_refunds : Text
category_refunds = codes "Reembolsos"

abbrev pub fallback_expense_category : Text
fallback_expense_category = codes "Otros gastos"

abbrev pub fallback_income_category : Text
fallback_income_category = codes "Otros ingresos"

abbrev pub fallback_by_type : TransactionType → Text
fallback_by_type expense = fallback_expense_category
fallback_by_type income = fallback_income_category

-- A category with its keywords: an entry of the dictionaries, in the order of the source.
pub record Rule : Type 0 where
  pub category : Text
  pub keywords : List Text

abbrev rule : Text → List Text → Rule
rule c ws = record { category = c; keywords = ws }

abbrev pub expense_keywords : List Rule
expense_keywords =
    rule category_food (
      codes "mercado"
      ∷ codes "supermercado"
      ∷ codes "restaurante"
      ∷ codes "almuerzo"
      ∷ codes "comida"
      ∷ codes "domicilio"
      ∷ [])
    ∷ rule category_transport (
        codes "taxi"
        ∷ codes "uber"
        ∷ codes "gasolina"
        ∷ codes "bus"
        ∷ codes "metro"
        ∷ codes "parqueadero"
        ∷ codes "peaje"
        ∷ [])
    ∷ rule category_housing
        (codes "arriendo" ∷ codes "hipoteca" ∷ codes "administracion" ∷ codes "mudanza" ∷ [])
    ∷ rule category_utilities (
        codes "agua"
        ∷ codes "luz"
        ∷ codes "energia"
        ∷ codes "gas"
        ∷ codes "internet"
        ∷ codes "telefono"
        ∷ codes "celular"
        ∷ [])
    ∷ rule category_health (
        codes "eps"
        ∷ codes "medicina"
        ∷ codes "farmacia"
        ∷ codes "drogueria"
        ∷ codes "medico"
        ∷ codes "odontologia"
        ∷ [])
    ∷ rule category_education (
        codes "matricula"
        ∷ codes "universidad"
        ∷ codes "curso"
        ∷ codes "colegio"
        ∷ codes "libro"
        ∷ [])
    ∷ rule category_entertainment (
        codes "cine"
        ∷ codes "netflix"
        ∷ codes "spotify"
        ∷ codes "concierto"
        ∷ codes "streaming"
        ∷ codes "videojuego"
        ∷ [])
    ∷ rule category_shopping (
        codes "ropa"
        ∷ codes "zapatos"
        ∷ codes "tecnologia"
        ∷ codes "electrodomestico"
        ∷ codes "amazon"
        ∷ [])
    ∷ rule category_debt (
        codes "cuota" ∷ codes "prestamo" ∷ codes "tarjeta" ∷ codes "credito" ∷ codes "interes" ∷ [])
    ∷ []

abbrev pub income_keywords : List Rule
income_keywords =
    rule category_salary (
      codes "salario"
      ∷ codes "nomina"
      ∷ codes "sueldo"
      ∷ codes "quincena"
      ∷ codes "pago empleador"
      ∷ [])
    ∷ rule category_freelance (
        codes "freelance"
        ∷ codes "honorarios"
        ∷ codes "factura"
        ∷ codes "proyecto"
        ∷ codes "consultoria"
        ∷ [])
    ∷ rule category_investments (
        codes "dividendo"
        ∷ codes "rendimiento"
        ∷ codes "interes ganado"
        ∷ codes "cdt"
        ∷ codes "accion"
        ∷ [])
    ∷ rule category_refunds (codes "reembolso" ∷ codes "devolucion" ∷ codes "reintegro" ∷ [])
    ∷ []

abbrev pub keywords_by_type : TransactionType → List Rule
keywords_by_type expense = expense_keywords
keywords_by_type income = income_keywords

abbrev names_of : List Rule → List Text
names_of rs = map (λ r. r.category) rs

abbrev pub all_category_names : List Text
all_category_names =
    names_of expense_keywords
    ++ (names_of income_keywords ++ (fallback_expense_category ∷ fallback_income_category ∷ []))
